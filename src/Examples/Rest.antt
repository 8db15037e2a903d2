-- ===== src/Examples/Rest.antt =====
-- The theorems on the scheduler, the projector, the owner's operations and the worker, applied.
use find_verse.Crawl.Store.{Db}
use find_verse.Crawl.Maintenance.{requeue_stale_jobs}
use find_verse.Crawl.Maintenance.Release.{IsSwept, requeue_stale_jobs-IsSwept}
use find_verse.Crawl.Admin.Tenancy.{others, owner_operations_others}
use find_verse.Crawl.Admin.{
  cleanup_completed_jobs, job_stats, retry_failed_jobs, cleanup_failed_jobs, stop_all_jobs,
}
use find_verse.Crawl.Admin.Stats.{
  HasCounts, stop_all_jobs-HasCounts, cleanup_failed_jobs-HasCounts, retry_failed_jobs-HasCounts,
}
use find_verse.Crawl.Maintenance.Blacklist.{HostSql}
use find_verse.Crawl.Rows.{pending}
use find_verse.Crawl.Ingest.{mark_item_completed, mark_item_failed}
use find_verse.Crawl.Ingest.Batches.{IsTold, batches_of, mark_item-IsTold}
use find_verse.Crawl.Projection.{process_pending_ingests}
use find_verse.Crawl.Projection.Rounds.{process_pending_ingests_returns}
use find_verse.Crawl.Rules.{apply_due_rules}
use find_verse.Crawl.Rules.Due.{IsResting}
use find_verse.Crawl.Rules.Offers.{apply_due_rules-offered}
use find_verse.Crawler.Fetch.{FetchResult, fetch_with_retry}
use find_verse.Crawler.Fetch.Bounds.{IsBounded, IsSettled, fetch_with_retry_returns}
use find_verse.Examples.Data.{
  sample_platform, open_index, turning_network, tally_id, mixed_jobs, db_of, hourly_rule, ok_report,
  page_item,
}
use find_verse.Prelude.{ℕ, ◌≤◌, ◌<◌, ◌∷◌, [], none, some, true, false, ◌≡◌, All}

requeue_stale_jobs-IsSwept_example :
    IsSwept 100 60 mixed_jobs (requeue_stale_jobs 100 60 (db_of mixed_jobs)).jobs
requeue_stale_jobs-IsSwept_example = requeue_stale_jobs-IsSwept 100 60 (db_of mixed_jobs)

stop_all_jobs-HasCounts_example :
    HasCounts (job_stats "owner" (stop_all_jobs "owner" 9 (db_of mixed_jobs)).0.jobs) 0 0 0 1 0 0
unfolding job_stats
stop_all_jobs-HasCounts_example = stop_all_jobs-HasCounts "owner" 9 (db_of mixed_jobs)

cleanup_failed_jobs-HasCounts_example :
    HasCounts
      (job_stats "owner" (cleanup_failed_jobs "owner" (db_of mixed_jobs)).0.jobs)
      2
      1
      0
      0
      0
      0
unfolding job_stats
cleanup_failed_jobs-HasCounts_example = cleanup_failed_jobs-HasCounts "owner" (db_of mixed_jobs)

retry_failed_jobs-HasCounts_example :
    HasCounts (job_stats "owner" (retry_failed_jobs "owner" (db_of mixed_jobs)).0.jobs) 3 1 0 0 0 0
unfolding job_stats
retry_failed_jobs-HasCounts_example = retry_failed_jobs-HasCounts "owner" (db_of mixed_jobs)

process_pending_ingests_returns_example :
    (out : Db × ℕ) × (process_pending_ingests sample_platform open_index
        (λ blob. some ok_report)
        (λ item. tally_id)
        5
        5
        4
        3
        0
        (record (db_of mixed_jobs) { items = page_item ∷ [] })
      ≡ some out)
    × (out.1 ≤ 3)
process_pending_ingests_returns_example =
    process_pending_ingests_returns sample_platform open_index (λ blob. some ok_report)
      (λ item. tally_id) 5 5 3 (record (db_of mixed_jobs) { items = page_item ∷ [] })

apply_due_rules-offered_example :
    let out =
      apply_due_rules sample_platform 100 (λ rule. "budget") (λ rule. tally_id) (db_of []) in
    (out.rules ≡ record hourly_rule { last_enqueued_at = some 100 } ∷ [])
    × All (λ x. x.enabled ≡ true → 0 < x.interval_minutes → IsResting 100 x) out.rules
apply_due_rules-offered_example =
    apply_due_rules-offered sample_platform 100 (λ rule. "budget") (λ rule. tally_id) (db_of [])
      (tt, tt)

fetch_with_retry_returns_example :
    (out : ℕ × FetchResult × ℕ) × (fetch_with_retry sample_platform turning_network "https://host" 0
      ≡ some out)
    × (out.2 ≤ 3)
    × IsBounded out.1
    × IsSettled out.2 out.1
fetch_with_retry_returns_example =
    fetch_with_retry_returns sample_platform turning_network "https://host" 0

owner_operations_others_example :
    (others "owner" (retry_failed_jobs "owner" (db_of mixed_jobs)).0.jobs
      ≡ others "owner" mixed_jobs)
    × (others "owner" (cleanup_completed_jobs "owner" (db_of mixed_jobs)).0.jobs
        ≡ others "owner" mixed_jobs)
    × (others "owner" (cleanup_failed_jobs "owner" (db_of mixed_jobs)).0.jobs
        ≡ others "owner" mixed_jobs)
    × (others "owner" (stop_all_jobs "owner" 9 (db_of mixed_jobs)).0.jobs
        ≡ others "owner" mixed_jobs)
owner_operations_others_example = owner_operations_others "owner" 9 (db_of mixed_jobs)

-- A database that takes an address for its own host.
abbrev plain_sql : HostSql
plain_sql = record { host = λ address. address; like = λ host pattern. false }

abbrev listed_db : Db
listed_db = record (db_of mixed_jobs) { blacklist = "https://host/d" ∷ [] }

abbrev batched_db : Db
batched_db = record (db_of mixed_jobs) {
  items = page_item ∷ [];
  batches =
      record {
        lease_id = page_item.lease_id;
        owner = "owner";
        crawler_id = "crawler";
        stage = pending;
        result_count = 1;
        started_at = none;
        finished_at = none;
        error_message = none;
      }
      ∷ [];
}

mark_item-IsTold_example :
    let done = mark_item_completed page_item 8 batched_db in
    let lost = mark_item_failed page_item "no blob" 8 batched_db in
    All (IsTold page_item.lease_id done.items) (batches_of page_item.lease_id done.batches)
    × All (IsTold page_item.lease_id lost.items) (batches_of page_item.lease_id lost.batches)
mark_item-IsTold_example = mark_item-IsTold page_item "no blob" 8 batched_db
