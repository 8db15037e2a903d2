-- ===== src/Crawl/Admin/Stats.antt =====
-- The statistics of services/api/src/crawler.rs, and what an owner's operations do to them.
use find_verse.Crawl.Rows.{Job, is_queued}
use find_verse.Crawl.Frontier.{owned}
use find_verse.Crawl.Store.{Db, push_event}
use find_verse.Crawl.Admin.{
  CrawlJobStats, is_failed, is_dead, job_stats, can_retry, retry_job, retry_failed_jobs,
  is_unfinished_of, stop_all_jobs, is_failed_of, cleanup_failed_jobs, note_if,
}
use find_verse.Prelude.{
  count_where-delete_where_all, count_where-delete_where_apart, count_where-update_where,
  count_where_mono, ◌&&◌, ℕ, ◌+◌, List, [], ◌∷◌, String, Bool, ◌≡◌, refl, count_where, update_where,
  if_elim, arith,
}

-- The six counts of an owner add up to the number of the owner's jobs.
pub job_stats_total :
    (owner : String) (jobs : List Job)
    → let s = job_stats owner jobs in
      s.queued_jobs + s.claimed_jobs + s.succeeded_jobs + s.failed_jobs + s.blocked_jobs
        + s.dead_letter_jobs
      ≡ count_where (owned owner) jobs
unfolding job_stats
job_stats_total owner [] = omega arith
job_stats_total owner (j ∷ js) = ground (arith, job_stats_total owner js)

pub note_if-jobs :
    (happened : Bool) (owner event_type : String) (db : Db)
    → (note_if happened owner event_type db).jobs ≡ db.jobs
unfolding push_event
note_if-jobs happened owner event_type db =
    if_elim (λ (d : Db). d.jobs ≡ db.jobs) happened (λ _. refl) (λ _. refl)

abbrev pub HasCounts : CrawlJobStats → ℕ → ℕ → ℕ → ℕ → ℕ → ℕ → Type 0
HasCounts s queued held succeeded failed blocked dead =
    (s.queued_jobs ≡ queued)
    × (s.claimed_jobs ≡ held)
    × (s.succeeded_jobs ≡ succeeded)
    × (s.failed_jobs ≡ failed)
    × (s.blocked_jobs ≡ blocked)
    × (s.dead_letter_jobs ≡ dead)

-- An owner who stops the crawl has nothing queued or held any more; the other counts stay.
pub stop_all_jobs-HasCounts :
    (owner : String) (now : ℕ) (db : Db)
    → let s = job_stats owner db.jobs in
      HasCounts
        (job_stats owner (stop_all_jobs owner now db).0.jobs)
        0
        0
        s.succeeded_jobs
        s.failed_jobs
        s.blocked_jobs
        s.dead_letter_jobs
unfolding job_stats stop_all_jobs
stop_all_jobs-HasCounts owner now db =
    let gone = is_unfinished_of owner in
    rw (note_if-jobs _ owner "crawl-stopped" _) (
      count_where-delete_where_all _ gone (λ j. ground arith) db.jobs,
      count_where-delete_where_all _ gone (λ j. ground arith) db.jobs,
      count_where-delete_where_apart _ gone (λ j. ground arith) db.jobs,
      count_where-delete_where_apart _ gone (λ j. ground arith) db.jobs,
      count_where-delete_where_apart _ gone (λ j. ground arith) db.jobs,
      count_where-delete_where_apart _ gone (λ j. ground arith) db.jobs,
    )

-- Cleaning up after failures clears the counts of failed, blocked and dead jobs; the others stay.
pub cleanup_failed_jobs-HasCounts :
    (owner : String) (db : Db)
    → let s = job_stats owner db.jobs in
      HasCounts
        (job_stats owner (cleanup_failed_jobs owner db).0.jobs)
        s.queued_jobs
        s.claimed_jobs
        s.succeeded_jobs
        0
        0
        0
unfolding job_stats cleanup_failed_jobs
cleanup_failed_jobs-HasCounts owner db =
    let gone = is_failed_of owner in
    rw (note_if-jobs _ owner "jobs-failed-cleaned" _) (
      count_where-delete_where_apart _ gone (λ j. ground arith) db.jobs,
      count_where-delete_where_apart _ gone (λ j. ground arith) db.jobs,
      count_where-delete_where_apart _ gone (λ j. ground arith) db.jobs,
      count_where-delete_where_all _ gone (λ j. ground arith) db.jobs,
      count_where-delete_where_all _ gone (λ j. ground arith) db.jobs,
      count_where-delete_where_all _ gone (λ j. ground arith) db.jobs,
    )

retried_queue :
    (owner : String) (jobs : List Job)
    → count_where
        (λ j. owned owner j && is_queued j.status)
        (update_where (can_retry owner) retry_job jobs)
      ≡ count_where (λ j. owned owner j && is_queued j.status) jobs
        + count_where (λ j. owned owner j && is_failed j.status) jobs
        + count_where (λ j. owned owner j && is_dead j.status) jobs
unfolding retry_job
retried_queue owner [] = refl
retried_queue owner (j ∷ js) = ground (arith, retried_queue owner js)

retried_failures :
    (owner : String) (jobs : List Job)
    → count_where (can_retry owner) (update_where (can_retry owner) retry_job jobs) ≡ 0
unfolding retry_job
retried_failures owner [] = refl
retried_failures owner (j ∷ js) = ground (arith, retried_failures owner js)

-- A retry by hand moves all failed and dead jobs of the owner into the queue, and leaves the other
-- counts alone.
pub retry_failed_jobs-HasCounts :
    (owner : String) (db : Db)
    → let s = job_stats owner db.jobs in
      HasCounts
        (job_stats owner (retry_failed_jobs owner db).0.jobs)
        (s.queued_jobs + s.failed_jobs + s.dead_letter_jobs)
        s.claimed_jobs
        s.succeeded_jobs
        0
        s.blocked_jobs
        0
unfolding job_stats retry_failed_jobs retry_job
retry_failed_jobs-HasCounts owner db =
    let again = can_retry owner in
    rw (note_if-jobs _ owner "jobs-retried" _) (
      retried_queue owner db.jobs,
      count_where-update_where _ again retry_job (λ j. ground arith) db.jobs,
      count_where-update_where _ again retry_job (λ j. ground arith) db.jobs,
      omega (
        arith,
        retried_failures owner db.jobs,
        count_where_mono (λ j. owned owner j && is_failed j.status) again (λ j. ground arith)
            (update_where again retry_job db.jobs),
      ),
      count_where-update_where _ again retry_job (λ j. ground arith) db.jobs,
      omega (
        arith,
        retried_failures owner db.jobs,
        count_where_mono (λ j. owned owner j && is_dead j.status) again (λ j. ground arith)
            (update_where again retry_job db.jobs),
      ),
    )
