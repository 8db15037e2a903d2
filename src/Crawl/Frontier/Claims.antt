-- ===== src/Crawl/Frontier/Claims.antt =====
-- What a claim gives its crawler (services/api/src/crawl/frontier.rs).
use find_verse.Crawl.Rows.{Job, Origin, claimed, is_queued}
use find_verse.Crawl.Table.{HasUniqueIds, named_row}
use find_verse.Crawl.Frontier.{
  Ranked, find_origin, retry_due, allowed, claimable, candidate_jobs, names_job, claim_job,
  claim_jobs,
}
use find_verse.Crawl.Frontier.Candidates.{candidate_jobs-All}
use find_verse.Prelude.{
  arith, Option, some, str_eq, subst, leb→le, All-imp, ℕ, ◌+◌, ◌≤◌, max, List, String, Bool, true,
  ◌≡◌, Elem, All, All-Elem_self, All-update_where_test, refl, length, length-take-le,
}

-- The rows that a claim hands out passed the test of `ranked_jobs`.
pub claimed_rows :
    (owner crawler_id lease_id : String) (max_jobs : ℕ) (has_js : Bool) (now : ℕ)
    (origins : List Origin) (jobs : List Job)
    → All
        (λ r. claimable owner has_js now origins r.job ≡ true)
        (claim_jobs owner crawler_id lease_id max_jobs has_js now origins jobs).2
unfolding claim_jobs
claimed_rows owner crawler_id lease_id max_jobs has_js now origins jobs =
    candidate_jobs-All owner has_js now origins (λ j. claimable owner has_js now origins j ≡ true)
      (max max_jobs 1) jobs (λ j t _. t)

-- What a crawler may be given.
abbrev pub MayRun : String → Bool → ℕ → List Origin → Job → Type 0
MayRun owner has_js now origins j =
    (str_eq j.owner owner ≡ true)
    × (is_queued j.status ≡ true)
    × ((t : ℕ) → j.next_retry_at ≡ some t → t ≤ now)
    × ((o : Origin) → find_origin owner j.origin origins ≡ some o → o.next_allowed_at ≤ now)
    × (j.requires_js ≡ true → has_js ≡ true)

due-le : (now : ℕ) (at : Option ℕ) → retry_due at now ≡ true → (t : ℕ) → at ≡ some t → t ≤ now
due-le now at e t same = leb→le t now (subst (λ o. retry_due o now ≡ true) same e)

allowed-le :
    (owner : String) (has_js : Bool) (now : ℕ) (origins : List Origin) (found : Option Origin)
    → allowed owner has_js now origins found ≡ true
    → (o : Origin) → found ≡ some o
    → o.next_allowed_at ≤ now
allowed-le owner has_js now origins found e o same =
    leb→le o.next_allowed_at now (subst (λ f. allowed owner has_js now origins f ≡ true) same e)

claimable-MayRun :
    (owner : String) (has_js : Bool) (now : ℕ) (origins : List Origin) (j : Job)
    → claimable owner has_js now origins j ≡ true
    → MayRun owner has_js now origins j
claimable-MayRun owner has_js now origins j t = (
  ground arith,
  ground arith,
  due-le now j.next_retry_at (ground arith),
  allowed-le owner has_js now origins (find_origin owner j.origin origins) (ground arith),
  λ js. ground arith,
)

-- Every job that a claim hands out belongs to the owner and was queued, is past its retry time and
-- its origin's pause, and needs no JavaScript where the crawler has none; and the jobs are at most
-- `max_jobs`, or one.
pub claim_jobs-MayRun :
    (owner crawler_id lease_id : String) (max_jobs : ℕ) (has_js : Bool) (now : ℕ)
    (origins : List Origin) (jobs : List Job)
    → All
        (λ r. MayRun owner has_js now origins r.job)
        (claim_jobs owner crawler_id lease_id max_jobs has_js now origins jobs).2
      × (length (claim_jobs owner crawler_id lease_id max_jobs has_js now origins jobs).2
          ≤ max max_jobs 1)
unfolding claim_jobs candidate_jobs
claim_jobs-MayRun owner crawler_id lease_id max_jobs has_js now origins jobs = (
  All-imp (λ (r : Ranked). claimable owner has_js now origins r.job ≡ true)
      (λ r. MayRun owner has_js now origins r.job)
      (λ r t. claimable-MayRun owner has_js now origins r.job t) _
      (claimed_rows owner crawler_id lease_id max_jobs has_js now origins jobs),
  length-take-le (max max_jobs 1) _,
)

-- A row that is held by this crawler under this lease since `now`, with one attempt more, and is the
-- row `j` in all else that the statement leaves alone.
pub record IsTakenFrom (crawler_id lease_id : String) (now : ℕ) (j k : Job) : Type 0 where
  pub status : k.status ≡ claimed
  pub crawler : k.claimed_by ≡ some crawler_id
  pub since : k.claimed_at ≡ some now
  pub lease : k.lease_id ≡ some lease_id
  pub attempts : k.attempt_count ≡ j.attempt_count + 1
  pub id : k.id ≡ j.id
  pub owner : k.owner ≡ j.owner
  pub url : k.url ≡ j.url
  pub origin : k.origin ≡ j.origin
  pub limits : (k.max_attempts ≡ j.max_attempts) × (k.depth ≡ j.depth)
  pub retry : k.next_retry_at ≡ j.next_retry_at
  pub end : k.finished_at ≡ j.finished_at

claim_job-IsTakenFrom :
    (crawler_id lease_id : String) (now : ℕ) (j : Job)
    → IsTakenFrom crawler_id lease_id now j (claim_job crawler_id lease_id now j)
unfolding claim_job
claim_job-IsTakenFrom crawler_id lease_id now j = record {
  status = refl;
  crawler = refl;
  since = refl;
  lease = refl;
  attempts = refl;
  id = refl;
  owner = refl;
  url = refl;
  origin = refl;
  limits = (refl, refl);
  retry = refl;
  end = refl;
}

-- How a row of `crawl_jobs` comes to stand in the table after a claim.
pub data IsFromClaim (owner crawler_id lease_id : String) (has_js : Bool) (now : ℕ)
    (origins : List Origin) (jobs : List Job) (k : Job) : Type 0 where
  untouched : Elem k jobs → IsFromClaim owner crawler_id lease_id has_js now origins jobs k
  taken :
      (j : Job)
      → Elem j jobs
      → MayRun owner has_js now origins j
      → IsTakenFrom crawler_id lease_id now j k
      → IsFromClaim owner crawler_id lease_id has_js now origins jobs k

pub claim_jobs-IsFromClaim :
    (owner crawler_id lease_id : String) (max_jobs : ℕ) (has_js : Bool) (now : ℕ)
    (origins : List Origin) (jobs : List Job)
    → HasUniqueIds jobs
    → All
        (IsFromClaim owner crawler_id lease_id has_js now origins jobs)
        (claim_jobs owner crawler_id lease_id max_jobs has_js now origins jobs).0
unfolding claim_jobs
claim_jobs-IsFromClaim owner crawler_id lease_id max_jobs has_js now origins jobs u =
    let rows = candidate_jobs owner has_js now origins (max max_jobs 1) jobs in
    let P = λ (j : Job). claimable owner has_js now origins j ≡ true in
    let sound =
      candidate_jobs-All owner has_js now origins (λ j. Elem j jobs × P j) (max max_jobs 1) jobs
        (λ j t m. (m, t)) in
    All-update_where_test (λ j. Elem j jobs)
      (IsFromClaim owner crawler_id lease_id has_js now origins jobs) (names_job rows)
      (claim_job crawler_id lease_id now) (λ j m. untouched m)
      (λ j t m.
        taken j m
          (claimable-MayRun owner has_js now origins j (named_row P rows jobs u sound j m t))
          (claim_job-IsTakenFrom crawler_id lease_id now j))
      jobs (All-Elem_self jobs)
