-- ===== src/Crawl/Apply/Rows.antt =====
-- What `apply_staged_result` and `mark_projection_failure` of services/api/src/crawler.rs write into
-- the row of a job.
use find_verse.Crawl.Rows.{
  Job, Item, Fetched, Status, queued, succeeded, failed, is_ingesting, holds,
}
use find_verse.Crawl.Frontier.{owned}
use find_verse.Crawl.Outcome.{CrawlResult, finalized_url}
use find_verse.Prelude.{
  ℕ, List, [], ◌∷◌, String, Option, none, some, Bool, true, false, ◌&&◌, str_eq, if◌then◌else◌,
}

-- The row that the staged item waits for.
abbrev pub awaits : Item → Job → Bool
awaits item j =
    str_eq j.id item.job_id
    && owned item.owner j
    && holds j.claimed_by item.crawler_id
    && holds j.lease_id item.lease_id
    && is_ingesting j.status

unfoldable pub in_flight : Item → List Job → Option Job
in_flight item [] = none
in_flight item (j ∷ js) = let rest = in_flight item js in if awaits item j then some j else rest

unfoldable pub summarize_llm_decision : Option Bool → Option Bool → Option String
summarize_llm_decision (some false) (some true) = some "discover_only"
summarize_llm_decision (some false) _ = some "filtered"
summarize_llm_decision (some true) (some false) = some "index_only"
summarize_llm_decision (some true) _ = some "indexed"
summarize_llm_decision none _ = none

-- The columns that every outcome writes.
unfoldable pub fetched_columns : CrawlResult → ℕ → Option String → Fetched
unfolding summarize_llm_decision
fetched_columns r discovered document_id = record {
  final_url = some (finalized_url r);
  content_type = r.content_type;
  http_status = some r.status_code;
  discovered_urls_count = discovered;
  accepted_document_id = document_id;
  llm_decision = summarize_llm_decision r.llm_should_index r.llm_should_discover;
  llm_reason = r.llm_reason;
  llm_relevance_score = r.llm_relevance_score;
  canonical_hint = r.canonical_hint;
  canonical_source = r.canonical_source;
  site_profile_id = r.site_profile_id;
  render_mode = r.render_mode;
  redirect_chain = r.redirect_chain;
}

unfoldable pub succeed_job : ℕ → CrawlResult → ℕ → String → Job → Job
unfolding fetched_columns
succeed_job now r discovered document_id j = record j {
  status = succeeded;
  failure_kind = none;
  failure_message = none;
  next_retry_at = none;
  finished_at = some now;
  fetched = fetched_columns r discovered (some document_id);
}

unfoldable pub filter_job : ℕ → CrawlResult → ℕ → Job → Job
unfolding fetched_columns
filter_job now r discovered j = record j {
  status = succeeded;
  failure_kind = none;
  failure_message = none;
  next_retry_at = none;
  finished_at = some now;
  fetched = fetched_columns r discovered none;
}

unfoldable pub retry_job : CrawlResult → ℕ → String → String → ℕ → Job → Job
unfolding fetched_columns
retry_job r discovered kind message at j = record j {
  status = queued;
  claimed_by = none;
  claimed_at = none;
  lease_id = none;
  next_retry_at = some at;
  failure_kind = some kind;
  failure_message = some message;
  finished_at = none;
  fetched = fetched_columns r discovered none;
}

unfoldable pub render_job : CrawlResult → ℕ → Job → Job
unfolding fetched_columns
render_job r discovered j = record j {
  status = queued;
  claimed_by = none;
  claimed_at = none;
  lease_id = none;
  next_retry_at = none;
  failure_kind = none;
  failure_message = none;
  finished_at = none;
  requires_js = true;
  fetched = fetched_columns r discovered none;
}

-- `blocked`, `failed` and `dead_letter` are written alike.
unfoldable pub close_job : ℕ → Status → CrawlResult → ℕ → String → String → Job → Job
unfolding fetched_columns
close_job now status r discovered kind message j = record j {
  status = status;
  failure_kind = some kind;
  failure_message = some message;
  next_retry_at = none;
  finished_at = some now;
  fetched = fetched_columns r discovered none;
}

unfoldable pub fail_projection : ℕ → String → Job → Job
fail_projection now message j = record j {
  status = failed;
  claimed_by = none;
  claimed_at = none;
  lease_id = none;
  next_retry_at = none;
  failure_kind = some "projection_error";
  failure_message = some message;
  finished_at = some now;
}
