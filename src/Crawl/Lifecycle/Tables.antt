-- ===== src/Crawl/Lifecycle/Tables.antt =====
-- Each operation of services/api/src/crawler.rs keeps every row of `crawl_jobs` consistent.
use find_verse.External.{Platform}
use find_verse.Crawl.Rows.{Job, Origin, is_queued}
use find_verse.Crawl.Frontier.{claim_jobs}
use find_verse.Crawl.Table.{HasUniqueIds}
use find_verse.Crawl.Frontier.Claims.{
  IsFromClaim, IsTakenFrom, untouched, taken, claim_jobs-IsFromClaim,
}
use find_verse.Crawl.Enqueue.{
  EnqueueRequest, Queue, superseded, new_job, drop_finished, insert_url, enqueue_urls,
}
use find_verse.Crawl.Enqueue.Loop.{enqueue_loop_inv}
use find_verse.Crawl.Lifecycle.{IsConsistent, new_job-IsConsistent}
use find_verse.Prelude.{
  ℕ, List, [], ◌∷◌, String, Bool, true, ◌≡◌, ◌∙◌, refl, All, All-append, All-delete_where, if_elim,
  Elem-All, All-imp, arith,
}

IsTakenFrom-IsConsistent :
    (crawler_id lease_id : String) (now : ℕ) (j k : Job)
    → is_queued j.status ≡ true
    → IsConsistent j
    → IsTakenFrom crawler_id lease_id now j k
    → IsConsistent k
IsTakenFrom-IsConsistent crawler_id lease_id now j k q h t =
    let free = h.queued_free q in
    record {
      queued_free = λ e. absurd (ground (arith, e, t.status));
      active_held = λ e. (rw t.crawler refl, rw t.since refl, rw t.lease refl, t.end ∙ free.3);
      done_closed = λ e. absurd (ground (arith, e, t.status));
    }

IsFromClaim-IsConsistent :
    {owner crawler_id lease_id : String} {has_js : Bool} {now : ℕ} {origins : List Origin}
    {jobs : List Job}
    → All IsConsistent jobs
    → (k : Job) → IsFromClaim owner crawler_id lease_id has_js now origins jobs k
    → IsConsistent k
IsFromClaim-IsConsistent h k (untouched m) = Elem-All IsConsistent k _ h m
IsFromClaim-IsConsistent {crawler_id} {lease_id} {now} {jobs} h k (taken j m may e) =
    IsTakenFrom-IsConsistent crawler_id lease_id now j k may.1 (Elem-All IsConsistent j jobs h m) e

pub claim_jobs-IsConsistent :
    (owner crawler_id lease_id : String) (max_jobs : ℕ) (has_js : Bool) (now : ℕ)
    (origins : List Origin) (jobs : List Job)
    → HasUniqueIds jobs
    → All IsConsistent jobs
    → All IsConsistent (claim_jobs owner crawler_id lease_id max_jobs has_js now origins jobs).0
claim_jobs-IsConsistent owner crawler_id lease_id max_jobs has_js now origins jobs u h =
    All-imp (IsFromClaim owner crawler_id lease_id has_js now origins jobs) IsConsistent
      (IsFromClaim-IsConsistent h) _
      (claim_jobs-IsFromClaim owner crawler_id lease_id max_jobs has_js now origins jobs u)

module _ (platform : Platform) (r : EnqueueRequest) (now : ℕ) where
  drop_finished-IsConsistent :
      (url : String) (jobs : List Job)
      → All IsConsistent jobs
      → All IsConsistent (drop_finished platform r url jobs)
  unfolding drop_finished
  drop_finished-IsConsistent url jobs h =
      if_elim (All IsConsistent) r.allow_revisit
        (λ _. All-delete_where IsConsistent (superseded platform r url) jobs h) (λ _. h)

  insert_url-IsConsistent :
      (id : String) (q : Queue) (found : String × String)
      → All IsConsistent q.jobs
      → All IsConsistent (insert_url platform r now id q found).jobs
  unfolding insert_url
  insert_url-IsConsistent id q (url, key) h =
      let job = new_job platform r now id url key in
      let kept = drop_finished-IsConsistent url q.jobs h in
      ground (
        arith,
        kept,
        All-append IsConsistent (drop_finished platform r url q.jobs) (job ∷ []) kept
            (new_job-IsConsistent platform r now id url key, tt),
      )

  pub enqueue_urls-IsConsistent :
      (blacklist : List String) (new_id : ℕ → String) (origins : List Origin) (jobs : List Job)
      → All IsConsistent jobs
      → All IsConsistent (enqueue_urls platform blacklist r now new_id origins jobs).jobs
  unfolding enqueue_urls
  enqueue_urls-IsConsistent blacklist new_id origins jobs h =
      enqueue_loop_inv platform blacklist r now (λ q. All IsConsistent q.jobs)
        insert_url-IsConsistent new_id 0 r.urls _ h
