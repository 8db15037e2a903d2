-- ===== src/Crawl/Apply/Polite.antt =====
-- The pause between two fetches from one origin: what `update_origin_after_report` of
-- services/api/src/crawler.rs writes, against what the claim of services/api/src/crawl/frontier.rs
-- reads.
use find_verse.Crawl.Rows.{Job, Origin}
use find_verse.Crawl.Outcome.{CrawlResult}
use find_verse.Crawl.Frontier.{Ranked, find_origin, claimable, allowed, claim_jobs}
use find_verse.Crawl.Frontier.Claims.{claimed_rows}
use find_verse.Crawl.Apply.Origins.{
  origin_ready_at, is_origin, touch_origin, reported_origin, upsert_origin,
  update_origin_after_report,
}
use find_verse.Prelude.{
  eq_iff, refl, Bool-cases, subst, sym, ℕ, ◌≤◌, ◌<◌, List, [], ◌∷◌, String, Option, none, some,
  Bool, true, false, ◌≡◌, str_eq, any, update_where, All, All-imp, if_elim, inl, inr, arith,
}

-- No row of this origin may be fetched from before `t`.
abbrev Rests : String → String → ℕ → Origin → Type 0
Rests owner key t o = is_origin owner key o ≡ true → t ≤ o.next_allowed_at

touched_rows-Rests :
    (owner key : String) (released : ℕ) (r : CrawlResult) (now : ℕ) (origins : List Origin)
    → All
        (Rests owner key (origin_ready_at now r))
        (update_where (is_origin owner key) (touch_origin released r now) origins)
unfolding touch_origin
touched_rows-Rests owner key released r now [] = tt
touched_rows-Rests owner key released r now (o ∷ os) = (
  if_elim (Rests owner key (origin_ready_at now r)) (is_origin owner key o) (λ _ _. omega arith)
      (λ e e'. absurd (ground arith)),
  touched_rows-Rests owner key released r now os,
)

-- The origins of the owner that no row speaks of.
absent_rows-Rests :
    (owner key : String) (t : ℕ) (origins : List Origin)
    → any (is_origin owner key) origins ≡ false
    → All (Rests owner key t) origins
absent_rows-Rests owner key t [] e = tt
absent_rows-Rests owner key t (o ∷ os) e =
    (λ e'. absurd (ground arith), absent_rows-Rests owner key t os (ground arith))

upsert_origin-Rests :
    (owner key : String) (released : ℕ) (r : CrawlResult) (now : ℕ) (origins : List Origin)
    → All (Rests owner key (origin_ready_at now r)) (upsert_origin owner key released r now origins)
unfolding upsert_origin reported_origin
upsert_origin-Rests owner key released r now origins =
    let t = origin_ready_at now r in
    if_elim (All (Rests owner key t)) (any (is_origin owner key) origins)
      (λ _. touched_rows-Rests owner key released r now origins)
      (λ e. (λ _. omega arith, absent_rows-Rests owner key t origins e))

touched_rows_rest :
    (owner key other : String) (t released : ℕ) (r : CrawlResult) (now : ℕ) (origins : List Origin)
    → All (Rests owner key t) origins
    → All
        (Rests owner key t)
        (update_where (is_origin owner other) (touch_origin released r now) origins)
unfolding touch_origin
touched_rows_rest owner key other t released r now [] h = tt
touched_rows_rest owner key other t released r now (o ∷ os) h = (
  if_elim (Rests owner key t) (is_origin owner other o) (λ _ e. omega (arith, h.0 e)) (λ _. h.0),
  touched_rows_rest owner key other t released r now os h.1,
)

-- A later report on another origin does not shorten a pause.
upsert_origin_kept :
    (owner key other : String) (t released : ℕ) (r : CrawlResult) (now : ℕ) (origins : List Origin)
    → t ≤ origin_ready_at now r
    → All (Rests owner key t) origins
    → All (Rests owner key t) (upsert_origin owner other released r now origins)
unfolding upsert_origin reported_origin
upsert_origin_kept owner key other t released r now origins le h =
    if_elim (All (Rests owner key t)) (any (is_origin owner other) origins)
      (λ _. touched_rows_rest owner key other t released r now origins h) (λ _. (λ _. le, h))

reported-Rests :
    (owner key : String) (final_key : Option String) (r : CrawlResult) (now : ℕ)
    (origins : List Origin)
    → All
        (Rests owner key (origin_ready_at now r))
        (update_origin_after_report owner key final_key r now origins)
unfolding update_origin_after_report
reported-Rests owner key none r now origins = upsert_origin-Rests owner key 1 r now origins
reported-Rests owner key (some final) r now origins =
    let first = upsert_origin-Rests owner key 1 r now origins in
    if_elim (All (Rests owner key (origin_ready_at now r))) (str_eq final key) (λ _. first)
      (λ _. upsert_origin_kept owner key final _ 0 r now _ (omega arith) first)

found_origin-Rests :
    (owner key : String) (t : ℕ) (origins : List Origin)
    → All (Rests owner key t) origins
    → (now : ℕ) → now < t
    → (has_js : Bool) → allowed owner has_js now origins (find_origin owner key origins) ≡ false
unfolding find_origin
found_origin-Rests owner key t [] h now early has_js = refl
found_origin-Rests owner key t (o ∷ os) h now early has_js =
    ground (arith, h.0, found_origin-Rests owner key t os h.1 now early has_js)

-- A job of a resting origin is not claimable.
resting_job :
    (owner key : String) (origins : List Origin) (has_js : Bool) (now : ℕ) (j : Job)
    → allowed owner has_js now origins (find_origin owner key origins) ≡ false
    → claimable owner has_js now origins j ≡ true
    → str_eq j.origin key ≡ false
resting_job owner key origins has_js now j e t = elim (Bool-cases (str_eq j.origin key)) [
  | inr apart ↦ apart
  | inl same ↦
      let closed =
        subst (λ k. allowed owner has_js now origins (find_origin owner k origins) ≡ false)
          (sym ((eq_iff j.origin key).0 same)) e in
      absurd (ground arith)
]

-- After a report on an origin was applied at `now`, no claim of the owner that comes before
-- `origin_ready_at` is over hands out a job of that origin, whatever jobs there are by then.
pub claim_jobs-update_origin_after_report :
    (owner key : String) (final_key : Option String) (r : CrawlResult) (now : ℕ)
    (origins : List Origin) (crawler_id lease_id : String) (max_jobs : ℕ) (has_js : Bool)
    (later : ℕ) (jobs : List Job)
    → later < origin_ready_at now r
    → All
        (λ c. str_eq c.job.origin key ≡ false)
        (claim_jobs owner crawler_id lease_id max_jobs has_js later
          (update_origin_after_report owner key final_key r now origins)
          jobs).2
claim_jobs-update_origin_after_report owner key final_key r now origins crawler_id lease_id max_jobs
      has_js later jobs early =
    let rested = update_origin_after_report owner key final_key r now origins in
    let closed =
      found_origin-Rests owner key (origin_ready_at now r) rested
        (reported-Rests owner key final_key r now origins) later early has_js in
    All-imp (λ (c : Ranked). claimable owner has_js later rested c.job ≡ true)
      (λ c. str_eq c.job.origin key ≡ false)
      (λ c t. resting_job owner key rested has_js later c.job closed t) _
      (claimed_rows owner crawler_id lease_id max_jobs has_js later rested jobs)
