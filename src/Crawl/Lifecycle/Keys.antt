-- ===== src/Crawl/Lifecycle/Keys.antt =====
-- The keys of `crawl_jobs` under updates, deletions and insertions; and `IsSound`, what holds of the
-- table between any two operations.
use find_verse.External.{Platform}
use find_verse.Crawl.Rows.{Job, Origin, Status}
use find_verse.Crawl.Outcome.{CrawlResult}
use find_verse.Crawl.Apply.Rows.{
  succeed_job, filter_job, retry_job, render_job, close_job, fail_projection,
}
use find_verse.Crawl.Maintenance.{take_back, take_back_ingest}
use find_verse.Crawl.Admin.{retry_job as retry_by_hand}
use find_verse.Crawl.Table.{HasUniqueIds}
use find_verse.Crawl.Enqueue.{
  EnqueueRequest, Queue, same_url, superseded, new_job, drop_finished, insert_url, admit, offer_url,
  enqueue_loop, enqueue_urls,
}
use find_verse.Crawl.Enqueue.Unique.{HasUniqueUrls}
use find_verse.Prelude.{
  ℕ, suc, ◌≤◌, max, List, [], ◌∷◌, ◌++◌, String, Bool, ◌≡◌, ◌≢◌, ◌⊎◌, ◌∙◌, refl, sym, subst, any,
  leb, All, All-append, All-update_where, All-delete_where, update_where, delete_where, if_elim,
  Option-cases, inl, inr, arith,
}

-- What no operation of the queue changes in a row.
abbrev pub Keeps : (Job → Job) → Type 0
Keeps f = (j : Job) → ((f j).id ≡ j.id) × ((f j).owner ≡ j.owner) × ((f j).url ≡ j.url)

pub succeed_job-Keeps :
    (now : ℕ) (r : CrawlResult) (n : ℕ) (id : String) → Keeps (succeed_job now r n id)
unfolding succeed_job
succeed_job-Keeps now r n id j = (refl, refl, refl)

pub filter_job-Keeps : (now : ℕ) (r : CrawlResult) (n : ℕ) → Keeps (filter_job now r n)
unfolding filter_job
filter_job-Keeps now r n j = (refl, refl, refl)

pub retry_job-Keeps :
    (r : CrawlResult) (n : ℕ) (kind message : String) (at : ℕ)
    → Keeps (retry_job r n kind message at)
unfolding retry_job
retry_job-Keeps r n kind message at j = (refl, refl, refl)

pub render_job-Keeps : (r : CrawlResult) (n : ℕ) → Keeps (render_job r n)
unfolding render_job
render_job-Keeps r n j = (refl, refl, refl)

pub close_job-Keeps :
    (now : ℕ) (status : Status) (r : CrawlResult) (n : ℕ) (kind message : String)
    → Keeps (close_job now status r n kind message)
unfolding close_job
close_job-Keeps now status r n kind message j = (refl, refl, refl)

pub fail_projection-Keeps : (now : ℕ) (message : String) → Keeps (fail_projection now message)
unfolding fail_projection
fail_projection-Keeps now message j = (refl, refl, refl)

pub take_back-Keeps :
    (now retry_at : ℕ) (kind : String) (message : Job → String)
    → Keeps (take_back now retry_at kind message)
unfolding take_back
take_back-Keeps now retry_at kind message j = ground arith

pub take_back_ingest-Keeps : (now retry_at : ℕ) → Keeps (take_back_ingest now retry_at)
unfolding take_back_ingest
take_back_ingest-Keeps now retry_at j = ground arith

pub retry_by_hand-Keeps : Keeps retry_by_hand
unfolding retry_by_hand
retry_by_hand-Keeps j = (refl, refl, refl)

All-id-update_where :
    (i : String) (q : Job → Bool) (f : Job → Job)
    → Keeps f
    → (js : List Job) → All (λ k. i ≢ k.id) js
    → All (λ k. i ≢ k.id) (update_where q f js)
All-id-update_where i q f keeps js h =
    All-update_where (λ k. i ≢ k.id) q f (λ j _ d. ground (arith, keeps j)) js h

pub HasUniqueIds-update_where :
    (q : Job → Bool) (f : Job → Job)
    → Keeps f
    → (js : List Job) → HasUniqueIds js
    → HasUniqueIds (update_where q f js)
HasUniqueIds-update_where q f keeps [] h = tt
HasUniqueIds-update_where q f keeps (j ∷ js) h =
    let apart = All-id-update_where j.id q f keeps js h.0 in
    (
      if_elim (λ (k : Job). All (λ m. k.id ≢ m.id) (update_where q f js)) (q j)
          (λ _. subst (λ i. All (λ m. i ≢ m.id) (update_where q f js)) (sym (keeps j).0) apart)
          (λ _. apart),
      HasUniqueIds-update_where q f keeps js h.1,
    )

any-same_url-update_where :
    (owner url : String) (q : Job → Bool) (f : Job → Job)
    → Keeps f
    → (js : List Job) → any (same_url owner url) (update_where q f js) ≡ any (same_url owner url) js
any-same_url-update_where owner url q f keeps [] = refl
any-same_url-update_where owner url q f keeps (j ∷ js) =
    ground (arith, keeps j, any-same_url-update_where owner url q f keeps js)

pub HasUniqueUrls-update_where :
    (q : Job → Bool) (f : Job → Job)
    → Keeps f
    → (js : List Job) → HasUniqueUrls js
    → HasUniqueUrls (update_where q f js)
HasUniqueUrls-update_where q f keeps [] h = tt
HasUniqueUrls-update_where q f keeps (j ∷ js) h = ground (
  arith,
  keeps j,
  any-same_url-update_where j.owner j.url q f keeps js,
  HasUniqueUrls-update_where q f keeps js h.1,
)

pub HasUniqueIds-delete_where :
    (q : Job → Bool) (js : List Job) → HasUniqueIds js → HasUniqueIds (delete_where q js)
HasUniqueIds-delete_where q [] h = tt
HasUniqueIds-delete_where q (j ∷ js) h =
    let rest = HasUniqueIds-delete_where q js h.1 in
    if_elim HasUniqueIds (q j) (λ _. rest)
      (λ _. (All-delete_where (λ k. j.id ≢ k.id) q js h.0, rest))

HasUniqueIds-append :
    (js : List Job) (k : Job)
    → HasUniqueIds js
    → All (λ j. j.id ≢ k.id) js
    → HasUniqueIds (js ++ k ∷ [])
HasUniqueIds-append [] k h d = (tt, tt)
HasUniqueIds-append (j ∷ js) k h d =
    (All-append (λ m. j.id ≢ m.id) js (k ∷ []) h.0 (d.0, tt), HasUniqueIds-append js k h.1 d.1)

-- Ids that no row has and that differ from one another.
pub record IsFresh (new_id : ℕ → String) (jobs : List Job) : Type 0 where
  pub unused : (n : ℕ) → All (λ j. j.id ≢ new_id n) jobs
  pub distinct : (m n : ℕ) → m ≢ n → new_id m ≢ new_id n

pub IsFresh-update_where :
    (new_id : ℕ → String) (q : Job → Bool) (f : Job → Job)
    → Keeps f
    → (jobs : List Job) → IsFresh new_id jobs
    → IsFresh new_id (update_where q f jobs)
IsFresh-update_where new_id q f keeps jobs h = record {
  unused = λ n.
      All-update_where (λ j. j.id ≢ new_id n) q f (λ j _ d e. d (sym (keeps j).0 ∙ e)) jobs
        (h.unused n);
  distinct = h.distinct;
}

module _ (platform : Platform) (blacklist : List String) (r : EnqueueRequest) (now : ℕ)
    (new_id : ℕ → String) (distinct : (m n : ℕ) → m ≢ n → new_id m ≢ new_id n) where
  -- The ids from the n-th on are still unused.
  abbrev Unused : ℕ → List Job → Type 0
  Unused n jobs = HasUniqueIds jobs × ((m : ℕ) → n ≤ m → All (λ j. j.id ≢ new_id m) jobs)

  drop_finished-Unused :
      (n : ℕ) (url : String) (jobs : List Job)
      → Unused n jobs
      → Unused n (drop_finished platform r url jobs)
  unfolding drop_finished
  drop_finished-Unused n url jobs (u, f) =
      if_elim (Unused n) r.allow_revisit
        (λ _. (
          HasUniqueIds-delete_where (superseded platform r url) jobs u,
          λ m h. All-delete_where (λ j. j.id ≢ new_id m) (superseded platform r url) jobs (f m h),
        ))
        (λ _. (u, f))

  insert_url_cases :
      (id : String) (q : Queue) (url key : String)
      → let jobs = drop_finished platform r url q.jobs in
        ((insert_url platform r now id q (url, key)).jobs
          ≡ jobs ++ new_job platform r now id url key ∷ [])
        ⊎ ((insert_url platform r now id q (url, key)).jobs ≡ jobs)
  unfolding insert_url
  insert_url_cases id q url key = ground arith

  new_job_id : (id url key : String) → (new_job platform r now id url key).id ≡ id
  unfolding new_job
  new_job_id id url key = refl

  -- The row takes the n-th id, which the later ones differ from.
  append-Unused :
      (n : ℕ) (jobs : List Job) (job : Job)
      → job.id ≡ new_id n
      → Unused n jobs
      → Unused (suc n) (jobs ++ job ∷ [])
  append-Unused n jobs job e (u, f) = (
    HasUniqueIds-append jobs job u
        (subst (λ i. All (λ j. j.id ≢ i) jobs) (sym e) (f n (omega arith))),
    λ m h.
        All-append (λ j. j.id ≢ new_id m) jobs (job ∷ []) (f m (omega arith))
          (λ same. distinct n m (omega arith) (sym e ∙ same), tt),
  )

  later-Unused : (n : ℕ) (jobs : List Job) → Unused n jobs → Unused (suc n) jobs
  later-Unused n jobs (u, f) = (u, λ m h. f m (omega arith))

  offer_url-Unused :
      (n : ℕ) (q : Queue) (url : String)
      → Unused n q.jobs
      → Unused (suc n) (offer_url platform blacklist r now (new_id n) q url).jobs
  unfolding offer_url
  offer_url-Unused n q url h = elim (Option-cases (admit platform blacklist url)) [
    | inl e ↦ rw (e, offer_url) (later-Unused n q.jobs h)
    | inr ((u, k), e) ↦
        let kept = drop_finished-Unused n u q.jobs h in
        rw (e, offer_url)
          (elim (insert_url_cases (new_id n) q u k) [
            | inl new ↦ subst (Unused (suc n)) (sym new) (
                append-Unused n _ (new_job platform r now (new_id n) u k)
                  (new_job_id (new_id n) u k) kept)
            | inr old ↦ subst (Unused (suc n)) (sym old) (later-Unused n _ kept)
          ])
  ]

  enqueue_loop-Unused :
      (n : ℕ) (urls : List String) (q : Queue)
      → Unused n q.jobs
      → HasUniqueIds (enqueue_loop platform blacklist r now new_id n urls q).jobs
  unfolding enqueue_loop
  enqueue_loop-Unused n [] q h = h.0
  enqueue_loop-Unused n (url ∷ urls) q h =
      if_elim (λ (p : Queue). HasUniqueIds p.jobs) (leb (max r.max_pages 1) q.budget_used)
        (λ _. h.0) (λ _. enqueue_loop-Unused (suc n) urls _ (offer_url-Unused n q url h))

pub enqueue_urls-HasUniqueIds :
    (platform : Platform) (blacklist : List String) (r : EnqueueRequest) (now : ℕ)
    (new_id : ℕ → String) (origins : List Origin) (jobs : List Job)
    → IsFresh new_id jobs
    → HasUniqueIds jobs
    → HasUniqueIds (enqueue_urls platform blacklist r now new_id origins jobs).jobs
unfolding enqueue_urls
enqueue_urls-HasUniqueIds platform blacklist r now new_id origins jobs fresh u =
    enqueue_loop-Unused platform blacklist r now new_id fresh.distinct 0 r.urls _
      (u, λ m _. fresh.unused m)
