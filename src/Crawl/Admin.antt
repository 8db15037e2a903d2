-- ===== src/Crawl/Admin.antt =====
-- services/api/src/crawler.rs: what an owner does to the frontier by hand, and its statistics.
pub mod Stats
pub mod Tenancy
use find_verse.Crawl.Rows.{
  Job, Origin, Status, queued, claimed, ingesting, succeeded, failed, blocked, dead_letter,
  is_queued, is_active, is_done,
}
use find_verse.Crawl.Frontier.{owned}
use find_verse.Crawl.Store.{Db, Rule, push_event}
use find_verse.Prelude.{
  ℕ, ◌+◌, List, [], ◌∷◌, String, Option, none, some, Bool, true, false, ◌&&◌, ◌||◌, str_eq, ltb,
  update_where, delete_where, count_where, if◌then◌else◌,
}

abbrev pub is_succeeded : Status → Bool
is_succeeded succeeded = true
is_succeeded _ = false

abbrev pub is_failed : Status → Bool
is_failed failed = true
is_failed _ = false

abbrev pub is_blocked : Status → Bool
is_blocked blocked = true
is_blocked _ = false

abbrev pub is_dead : Status → Bool
is_dead dead_letter = true
is_dead _ = false

-- The columns that `retry_failed_jobs` sets; what it does not name stays.
unfoldable pub retry_job : Job → Job
retry_job j = record j {
  status = queued;
  claimed_by = none;
  claimed_at = none;
  lease_id = none;
  next_retry_at = none;
  failure_kind = none;
  failure_message = none;
  finished_at = none;
  fetched = record (j.fetched) {
    final_url = none;
    content_type = none;
    http_status = none;
    discovered_urls_count = 0;
    accepted_document_id = none;
    llm_decision = none;
    llm_reason = none;
    llm_relevance_score = none;
    render_mode = "static";
  };
}

abbrev pub can_retry : String → Job → Bool
can_retry owner j = owned owner j && (is_failed j.status || is_dead j.status)

abbrev pub note_if : Bool → String → String → Db → Db
note_if happened owner event_type db =
    if happened then push_event owner event_type "ok" none none db else db

unfoldable pub retry_failed_jobs : String → Db → Db × ℕ
unfolding retry_job push_event
retry_failed_jobs owner db =
    let count = count_where (can_retry owner) db.jobs in
    (
      note_if (ltb 0 count) owner "jobs-retried"
          (record db { jobs = update_where (can_retry owner) retry_job db.jobs }),
      count,
    )

abbrev delete_jobs : String → String → (Job → Bool) → Db → Db × ℕ
delete_jobs owner event_type chosen db =
    let count = count_where chosen db.jobs in
    (
      note_if (ltb 0 count) owner event_type (record db { jobs = delete_where chosen db.jobs }),
      count,
    )

abbrev pub is_completed_of : String → Job → Bool
is_completed_of owner j = owned owner j && is_succeeded j.status

unfoldable pub cleanup_completed_jobs : String → Db → Db × ℕ
unfolding push_event
cleanup_completed_jobs owner db = delete_jobs owner "jobs-cleaned" (is_completed_of owner) db

abbrev pub is_failed_of : String → Job → Bool
is_failed_of owner j =
    owned owner j && (is_failed j.status || is_blocked j.status || is_dead j.status)

unfoldable pub cleanup_failed_jobs : String → Db → Db × ℕ
unfolding push_event
cleanup_failed_jobs owner db = delete_jobs owner "jobs-failed-cleaned" (is_failed_of owner) db

abbrev pub is_unfinished_of : String → Job → Bool
is_unfinished_of owner j = owned owner j && (is_queued j.status || is_active j.status)

abbrev pub enabled_rule : String → Rule → Bool
enabled_rule owner rule = str_eq rule.owner owner && rule.enabled

-- Every rule is switched off, and every job that is not finished is deleted.
unfoldable pub stop_all_jobs : String → ℕ → Db → Db × ℕ × ℕ
unfolding push_event
stop_all_jobs owner now db =
    let disabled = count_where (enabled_rule owner) db.rules in
    let removed = count_where (is_unfinished_of owner) db.jobs in
    (
      note_if (ltb 0 disabled || ltb 0 removed) owner "crawl-stopped" (record db {
        rules =
            update_where (enabled_rule owner) (λ rule. record rule { enabled = false }) db.rules;
        jobs = delete_where (is_unfinished_of owner) db.jobs;
        origins =
            update_where (λ o. str_eq o.owner owner)
              (λ o. record o { in_flight_count = 0; next_allowed_at = now; updated_at = now })
              db.origins;
      }),
      disabled,
      removed,
    )

pub record CrawlJobStats : Type 0 where
  pub queued_jobs : ℕ
  pub claimed_jobs : ℕ
  pub succeeded_jobs : ℕ
  pub failed_jobs : ℕ
  pub blocked_jobs : ℕ
  pub dead_letter_jobs : ℕ

unfoldable pub job_stats : String → List Job → CrawlJobStats
job_stats owner jobs = record {
  queued_jobs = count_where (λ j. owned owner j && is_queued j.status) jobs;
  claimed_jobs = count_where (λ j. owned owner j && is_active j.status) jobs;
  succeeded_jobs = count_where (λ j. owned owner j && is_succeeded j.status) jobs;
  failed_jobs = count_where (λ j. owned owner j && is_failed j.status) jobs;
  blocked_jobs = count_where (λ j. owned owner j && is_blocked j.status) jobs;
  dead_letter_jobs = count_where (λ j. owned owner j && is_dead j.status) jobs;
}
