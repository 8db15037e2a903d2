-- ===== src/Crawl/Admin/Tenancy.antt =====
-- What the owner's operations of services/api/src/crawler.rs do to the jobs of other owners.
use find_verse.Crawl.Rows.{Job}
use find_verse.Crawl.Frontier.{owned}
use find_verse.Crawl.Store.{Db}
use find_verse.Crawl.Admin.{
  retry_job, can_retry, retry_failed_jobs, is_completed_of, cleanup_completed_jobs, is_failed_of,
  cleanup_failed_jobs, is_unfinished_of, stop_all_jobs,
}
use find_verse.Crawl.Admin.Stats.{note_if-jobs}
use find_verse.Prelude.{
  ℕ, List, String, not, ◌≡◌, ◌∙◌, ap, select_where, select_where-update_where_apart,
  select_where-delete_where_apart, arith,
}

-- The jobs of everyone else.
abbrev pub others : String → List Job → List Job
others owner jobs = select_where (λ j. not (owned owner j)) jobs

-- Whatever an owner retries, cleans up or stops, the jobs of all other owners stay as they are.
pub owner_operations_others :
    (owner : String) (now : ℕ) (db : Db)
    → (others owner (retry_failed_jobs owner db).0.jobs ≡ others owner db.jobs)
      × (others owner (cleanup_completed_jobs owner db).0.jobs ≡ others owner db.jobs)
      × (others owner (cleanup_failed_jobs owner db).0.jobs ≡ others owner db.jobs)
      × (others owner (stop_all_jobs owner now db).0.jobs ≡ others owner db.jobs)
unfolding retry_failed_jobs cleanup_completed_jobs cleanup_failed_jobs stop_all_jobs retry_job
owner_operations_others owner now db =
    let apart = λ (j : Job). not (owned owner j) in
    (
      ap (others owner) (note_if-jobs _ owner "jobs-retried" _)
          ∙ select_where-update_where_apart apart (can_retry owner) retry_job
              (λ j t. (ground arith, ground arith)) db.jobs,
      ap (others owner) (note_if-jobs _ owner "jobs-cleaned" _)
          ∙ select_where-delete_where_apart apart (is_completed_of owner) (λ j t. ground arith)
              db.jobs,
      ap (others owner) (note_if-jobs _ owner "jobs-failed-cleaned" _)
          ∙ select_where-delete_where_apart apart (is_failed_of owner) (λ j t. ground arith)
              db.jobs,
      ap (others owner) (note_if-jobs _ owner "crawl-stopped" _)
          ∙ select_where-delete_where_apart apart (is_unfinished_of owner) (λ j t. ground arith)
              db.jobs,
    )
