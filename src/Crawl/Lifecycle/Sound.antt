-- ===== src/Crawl/Lifecycle/Sound.antt =====
-- What holds of `crawl_jobs` between any two operations, and how each kind of statement keeps it.
use find_verse.External.{Platform}
use find_verse.Crawl.Rows.{Job, Origin, ingesting}
use find_verse.Crawl.Table.{HasUniqueIds}
use find_verse.Crawl.Frontier.{
  names_job, candidate_jobs, claim_job, claim_jobs, accepts, accept_report,
}
use find_verse.Crawl.Enqueue.{EnqueueRequest, enqueue_urls}
use find_verse.Crawl.Enqueue.Unique.{
  HasUniqueUrls, HasUniqueUrls-delete_where, enqueue_urls-HasUniqueUrls,
}
use find_verse.Crawl.Lifecycle.{IsConsistent, accept-IsConsistent}
use find_verse.Crawl.Lifecycle.Keys.{
  Keeps, IsFresh, HasUniqueIds-update_where, HasUniqueUrls-update_where, HasUniqueIds-delete_where,
  enqueue_urls-HasUniqueIds,
}
use find_verse.Crawl.Lifecycle.Tables.{claim_jobs-IsConsistent, enqueue_urls-IsConsistent}
use find_verse.Prelude.{
  ℕ, max, List, String, Bool, true, ◌≡◌, refl, is_empty, All, All-update_where, All-delete_where,
  update_where, delete_where, if_elim, arith,
}

-- Every row is consistent with its status, no two rows share an id, and no owner has two rows for
-- one address.
pub record IsSound (jobs : List Job) : Type 0 where
  pub rows : All IsConsistent jobs
  pub ids : HasUniqueIds jobs
  pub urls : HasUniqueUrls jobs

pub IsSound-update_where :
    (q : Job → Bool) (f : Job → Job)
    → Keeps f
    → ((j : Job) → q j ≡ true → IsConsistent j → IsConsistent (f j))
    → (jobs : List Job) → IsSound jobs
    → IsSound (update_where q f jobs)
IsSound-update_where q f keeps fits jobs s = record {
  rows = All-update_where IsConsistent q f fits jobs s.rows;
  ids = HasUniqueIds-update_where q f keeps jobs s.ids;
  urls = HasUniqueUrls-update_where q f keeps jobs s.urls;
}

pub IsSound-delete_where :
    (q : Job → Bool) (jobs : List Job) → IsSound jobs → IsSound (delete_where q jobs)
IsSound-delete_where q jobs s = record {
  rows = All-delete_where IsConsistent q jobs s.rows;
  ids = HasUniqueIds-delete_where q jobs s.ids;
  urls = HasUniqueUrls-delete_where q jobs s.urls;
}

claim_job-Keeps :
    (crawler_id lease_id : String) (now : ℕ) → Keeps (claim_job crawler_id lease_id now)
unfolding claim_job
claim_job-Keeps crawler_id lease_id now j = (refl, refl, refl)

pub claim_jobs-IsSound :
    (owner crawler_id lease_id : String) (max_jobs : ℕ) (has_js : Bool) (now : ℕ)
    (origins : List Origin) (jobs : List Job)
    → IsSound jobs
    → IsSound (claim_jobs owner crawler_id lease_id max_jobs has_js now origins jobs).0
unfolding claim_jobs
claim_jobs-IsSound owner crawler_id lease_id max_jobs has_js now origins jobs s =
    let rows = candidate_jobs owner has_js now origins (max max_jobs 1) jobs in
    let f = claim_job crawler_id lease_id now in
    let keeps = claim_job-Keeps crawler_id lease_id now in
    record {
      rows =
          claim_jobs-IsConsistent owner crawler_id lease_id max_jobs has_js now origins jobs s.ids
            s.rows;
      ids = HasUniqueIds-update_where (names_job rows) f keeps jobs s.ids;
      urls = HasUniqueUrls-update_where (names_job rows) f keeps jobs s.urls;
    }

accepts-IsConsistent :
    (owner crawler_id lease_id : String) (ids : List String) (j : Job)
    → accepts owner crawler_id lease_id ids j ≡ true
    → IsConsistent j
    → IsConsistent (record j { status = ingesting })
accepts-IsConsistent owner crawler_id lease_id ids j t c = accept-IsConsistent j (ground arith) c

pub accept_report-IsSound :
    (owner crawler_id lease_id : String) (ids : List String) (jobs : List Job)
    → IsSound jobs
    → IsSound (accept_report owner crawler_id lease_id ids jobs)
unfolding accept_report
accept_report-IsSound owner crawler_id lease_id ids jobs s =
    if_elim IsSound (is_empty ids) (λ _. s)
      (λ _.
        IsSound-update_where (accepts owner crawler_id lease_id ids)
          (λ j. record j { status = ingesting }) (λ j. (refl, refl, refl))
          (accepts-IsConsistent owner crawler_id lease_id ids) jobs s)

pub enqueue_urls-IsSound :
    (platform : Platform) (blacklist : List String) (r : EnqueueRequest) (now : ℕ)
    (new_id : ℕ → String) (origins : List Origin) (jobs : List Job)
    → IsFresh new_id jobs
    → IsSound jobs
    → IsSound (enqueue_urls platform blacklist r now new_id origins jobs).jobs
enqueue_urls-IsSound platform blacklist r now new_id origins jobs fresh s = record {
  rows = enqueue_urls-IsConsistent platform r now blacklist new_id origins jobs s.rows;
  ids = enqueue_urls-HasUniqueIds platform blacklist r now new_id origins jobs fresh s.ids;
  urls = enqueue_urls-HasUniqueUrls platform blacklist r now new_id origins jobs s.urls;
}
