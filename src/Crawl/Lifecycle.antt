-- ===== src/Crawl/Lifecycle.antt =====
-- The life of a job of services/api/src/crawler.rs: which columns go with which status. The rows
-- that each operation writes keep to it.
pub mod Tables
pub mod Keys
pub mod Reach
pub mod Operations
pub mod Reports
pub mod Sound
pub mod Isolation
use find_verse.Crawl.Rows.{Job, Status, is_queued, is_active, is_done, ingesting}
use find_verse.Crawl.Outcome.{CrawlResult}
use find_verse.Crawl.Apply.Rows.{
  succeed_job, filter_job, retry_job, render_job, close_job, fail_projection,
}
use find_verse.Crawl.Maintenance.{is_exhausted, take_back, take_back_ingest}
use find_verse.Crawl.Admin.{retry_job as retry_by_hand}
use find_verse.External.{Platform}
use find_verse.Crawl.Enqueue.{EnqueueRequest, new_job}
use find_verse.Prelude.{ℕ, String, Bool, true, false, none, ◌≡◌, refl, is_some, arith}

-- A queued job has no holder and no end; a held job has a holder, a time and a lease, and no end; a
-- closed job has an end and waits for no retry.
pub record IsConsistent (j : Job) : Type 0 where
  pub queued_free :
      is_queued j.status ≡ true
      → (j.claimed_by ≡ none) × (j.claimed_at ≡ none) × (j.lease_id ≡ none) × (j.finished_at ≡ none)
  pub active_held :
      is_active j.status ≡ true
      → (is_some j.claimed_by ≡ true)
        × (is_some j.claimed_at ≡ true)
        × (is_some j.lease_id ≡ true)
        × (j.finished_at ≡ none)
  pub done_closed :
      is_done j.status ≡ true → (is_some j.finished_at ≡ true) × (j.next_retry_at ≡ none)

pub accept-IsConsistent :
    (j : Job)
    → is_active j.status ≡ true
    → IsConsistent j
    → IsConsistent (record j { status = ingesting })
accept-IsConsistent j a h = ground arith

pub take_back-IsConsistent :
    (now retry_at : ℕ) (kind : String) (message : Job → String) (j : Job)
    → IsConsistent (take_back now retry_at kind message j)
unfolding take_back
take_back-IsConsistent now retry_at kind message j = ground arith

pub take_back_ingest-IsConsistent :
    (now retry_at : ℕ) (j : Job) → IsConsistent (take_back_ingest now retry_at j)
unfolding take_back_ingest
take_back_ingest-IsConsistent now retry_at j = ground arith

pub retry_by_hand-IsConsistent : (j : Job) → IsConsistent (retry_by_hand j)
unfolding retry_by_hand
retry_by_hand-IsConsistent j = ground arith

pub new_job-IsConsistent :
    (platform : Platform) (r : EnqueueRequest) (now : ℕ) (id url key : String)
    → IsConsistent (new_job platform r now id url key)
unfolding new_job
new_job-IsConsistent platform r now id url key = ground arith

pub succeed_job-IsConsistent :
    (now : ℕ) (r : CrawlResult) (n : ℕ) (document_id : String) (j : Job)
    → IsConsistent (succeed_job now r n document_id j)
unfolding succeed_job
succeed_job-IsConsistent now r n document_id j = ground arith

pub filter_job-IsConsistent :
    (now : ℕ) (r : CrawlResult) (n : ℕ) (j : Job) → IsConsistent (filter_job now r n j)
unfolding filter_job
filter_job-IsConsistent now r n j = ground arith

pub retry_job-IsConsistent :
    (r : CrawlResult) (n : ℕ) (kind message : String) (at : ℕ) (j : Job)
    → IsConsistent (retry_job r n kind message at j)
unfolding retry_job
retry_job-IsConsistent r n kind message at j = ground arith

pub render_job-IsConsistent : (r : CrawlResult) (n : ℕ) (j : Job) → IsConsistent (render_job r n j)
unfolding render_job
render_job-IsConsistent r n j = ground arith

pub close_job-IsConsistent :
    (now : ℕ) (status : Status) (r : CrawlResult) (n : ℕ) (kind message : String) (j : Job)
    → is_done status ≡ true
    → IsConsistent (close_job now status r n kind message j)
unfolding close_job
close_job-IsConsistent now status r n kind message j d = ground arith

pub fail_projection-IsConsistent :
    (now : ℕ) (message : String) (j : Job) → IsConsistent (fail_projection now message j)
unfolding fail_projection
fail_projection-IsConsistent now message j = ground arith
