-- ===== src/Crawl/Maintenance.antt =====
-- services/api/src/crawler.rs: what the scheduler does to jobs that are held for too long, and to the
-- jobs of a crawler that is deleted.
pub mod Release
pub mod Blacklist
pub mod Cleaned
use Prim.Native.String
use find_verse.Crawl.Rows.{
  Job, Origin, Item, Batch, Stage, Status, queued, dead_letter, is_claimed, is_ingesting, holds,
}
use find_verse.Crawl.Frontier.{owned}
use find_verse.Crawl.Ingest.{is_open, is_completed, of_lease_job}
use find_verse.Crawl.Store.{Db, push_event}
use find_verse.Prelude.{
  ℕ, ◌+◌, ◌-◌, max, List, [], ◌∷◌, String, Option, none, some, Bool, true, false, ◌&&◌, ◌||◌, not,
  str_eq, ltb, leb, any, select_where, update_where, count_where, print_decimal, if◌then◌else◌,
}

-- greatest(max_attempts, 1) <= greatest(attempt_count, 1)
unfoldable pub is_exhausted : Job → Bool
is_exhausted j = leb (max j.max_attempts 1) (max j.attempt_count 1)

-- A job that is taken back from its crawler: again in the queue at `retry_at`, or a dead letter with
-- this kind and message of failure.
unfoldable pub take_back : ℕ → ℕ → String → (Job → String) → Job → Job
unfolding is_exhausted
take_back now retry_at kind message j =
    if is_exhausted j
    then record j {
      status = dead_letter;
      claimed_by = none;
      claimed_at = none;
      lease_id = none;
      next_retry_at = none;
      failure_kind = some kind;
      failure_message = some (message j);
      finished_at = some now;
    }
    else record j {
      status = queued;
      claimed_by = none;
      claimed_at = none;
      lease_id = none;
      next_retry_at = some retry_at;
      finished_at = none;
    }

-- `claimed_at < now - timeout`
abbrev pub held_since : ℕ → ℕ → Option ℕ → Bool
held_since now timeout none = false
held_since now timeout (some t) = ltb (t + timeout) now

abbrev pub is_late_claim : ℕ → ℕ → Job → Bool
is_late_claim now timeout j = is_claimed j.status && held_since now timeout j.claimed_at

abbrev pub is_late_ingest : ℕ → ℕ → Job → Bool
is_late_ingest now timeout j = is_ingesting j.status && held_since now timeout j.claimed_at

-- `touched_origins`: the origins of the jobs that are taken back.
unfoldable pub release_origins : List Job → ℕ → ℕ → List Origin → List Origin
release_origins taken retry_at updated_at origins =
    let from = λ (o : Origin) (j : Job). str_eq j.owner o.owner && str_eq j.origin o.key in
    update_where (λ o. any (from o) taken)
      (λ o. record o {
        in_flight_count = o.in_flight_count - count_where (from o) taken;
        next_allowed_at = max o.next_allowed_at retry_at;
        updated_at = updated_at;
      })
      origins

pub claim_timeout_message : Job → String
unfolding print_decimal
claim_timeout_message j =
    String.◌++◌ "claim timed out after "
      (String.◌++◌ (print_decimal (max j.attempt_count 1)) " attempts")

-- One event for each job that was taken back. The row that the statement returns has lost its
-- crawler, so the event names none.
unfoldable pub take_back_events : String → String → String → List Job → Db → Db
unfolding is_exhausted push_event
take_back_events dead alive alive_status [] db = db
take_back_events dead alive alive_status (j ∷ js) db = take_back_events dead alive alive_status js (
    push_event j.owner (if is_exhausted j then dead else alive)
      (if is_exhausted j then "error" else alive_status) (some j.url) none db)

-- The statement, before the events are noted.
unfoldable pub requeue_rows : ℕ → ℕ → Db → Db
unfolding take_back claim_timeout_message release_origins
requeue_rows now timeout db = record db {
  jobs =
      update_where (is_late_claim now timeout)
        (take_back now (now + 30) "claim_timeout" claim_timeout_message) db.jobs;
  origins =
      release_origins (select_where (is_late_claim now timeout) db.jobs) (now + 30) (now + 30)
        db.origins;
}

unfoldable pub requeue_stale_jobs : ℕ → ℕ → Db → Db
unfolding requeue_rows take_back_events
requeue_stale_jobs now timeout db =
    take_back_events "stale-job-dead-lettered" "stale-job-requeued" "ok"
      (select_where (is_late_claim now timeout) db.jobs) (requeue_rows now timeout db)

abbrev ingest_timeout : String
ingest_timeout = "ingest projection timed out before finishing"

-- As `take_back`, with the failure noted in both cases.
unfoldable pub take_back_ingest : ℕ → ℕ → Job → Job
unfolding take_back
take_back_ingest now retry_at j =
    record (take_back now retry_at "ingest_timeout" (λ k. ingest_timeout) j) {
      failure_kind = some "ingest_timeout";
      failure_message = some ingest_timeout;
    }

-- `stale.lease_id is not null and item.lease_id = stale.lease_id and item.crawl_job_id = stale.id`
abbrev stalled_item : List Job → Item → Bool
stalled_item taken i =
    is_open i.stage && any (λ j. holds j.lease_id i.lease_id && str_eq j.id i.job_id) taken

abbrev fail_item : ℕ → Item → Item
fail_item now i = record i {
  stage = Stage.failed;
  finished_at = some now;
  error_message = some ingest_timeout;
}

abbrev fail_batch : ℕ → Batch → Batch
fail_batch now b = record b {
  stage = Stage.failed;
  finished_at = some now;
  error_message = some ingest_timeout;
}

unfoldable pub ingest_events : List Job → Db → Db
unfolding is_exhausted push_event
ingest_events [] db = db
ingest_events (j ∷ js) db = ingest_events js (
    push_event j.owner
      (if is_exhausted j then "stale-ingest-dead-lettered" else "stale-ingest-requeued") "error"
      (some j.url) j.claimed_by db)

-- The statement: the items and the batches of the jobs that are taken back fail with them.
unfoldable pub recover_rows : ℕ → ℕ → Db → Db
unfolding take_back_ingest release_origins
recover_rows now timeout db =
    let taken = select_where (is_late_ingest now timeout) db.jobs in
    let lost = select_where (stalled_item taken) db.items in
    record db {
      jobs = update_where (is_late_ingest now timeout) (take_back_ingest now (now + 30)) db.jobs;
      origins = release_origins taken (now + 30) now db.origins;
      items = update_where (stalled_item taken) (fail_item now) db.items;
      batches =
          update_where
            (λ b. any (λ i. str_eq i.lease_id b.lease_id) lost && not (is_completed b.stage))
            (fail_batch now) db.batches;
    }

unfoldable pub recover_stale_ingesting_jobs : ℕ → ℕ → Db → Db
unfolding recover_rows ingest_events
recover_stale_ingesting_jobs now timeout db =
    ingest_events (select_where (is_late_ingest now timeout) db.jobs) (recover_rows now timeout db)

abbrev pub deleted_message : Job → String
deleted_message j = "crawler was deleted while the job was still claimed"

abbrev pub claimed_from : String → String → Job → Bool
claimed_from owner crawler_id j =
    owned owner j && holds j.claimed_by crawler_id && is_claimed j.status

-- The tables without the crawler's jobs, and how many were queued again and given up.
unfoldable pub release_claimed_jobs_for_deleted_crawler : String → String → ℕ → Db → Db × ℕ × ℕ
unfolding take_back release_origins is_exhausted
release_claimed_jobs_for_deleted_crawler owner crawler_id now db =
    let taken = select_where (claimed_from owner crawler_id) db.jobs in
    (
      record db {
        jobs =
            update_where (claimed_from owner crawler_id)
              (take_back now (now + 30) "crawler_deleted" deleted_message) db.jobs;
        origins = release_origins taken (now + 30) now db.origins;
      },
      count_where (λ j. not (is_exhausted j)) taken,
      count_where is_exhausted taken,
    )
