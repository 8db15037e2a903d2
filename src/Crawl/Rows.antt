-- ===== src/Crawl/Rows.antt =====
-- The rows of the tables that services/api/src/crawler.rs and services/api/src/crawl/ read and
-- write: `crawl_jobs`, `crawl_origins`, `crawl_ingest_items`, `crawl_ingest_batches`,
-- `crawl_events` and `domain_crawl_stats`. Times are seconds; a nullable column is an `Option`.
use find_verse.Prelude.{ℕ, List, String, Option, none, some, Bool, true, false, str_eq}

pub data Status : Type 0 where
  queued claimed ingesting succeeded failed blocked dead_letter : Status

-- status in ('claimed', 'ingesting')
abbrev pub is_active : Status → Bool
is_active claimed = true
is_active ingesting = true
is_active _ = false

abbrev pub is_queued : Status → Bool
is_queued queued = true
is_queued _ = false

abbrev pub is_claimed : Status → Bool
is_claimed claimed = true
is_claimed _ = false

abbrev pub is_ingesting : Status → Bool
is_ingesting ingesting = true
is_ingesting _ = false

-- status in ('succeeded', 'failed', 'blocked', 'dead_letter')
abbrev pub is_done : Status → Bool
is_done queued = false
is_done claimed = false
is_done ingesting = false
is_done _ = true

-- The columns that a report fills in and that the queue itself never reads. A relevance score is
-- the bit pattern of its `f32`.
pub record Fetched : Type 0 where
  pub final_url : Option String
  pub content_type : Option String
  pub http_status : Option ℕ
  pub discovered_urls_count : ℕ
  pub accepted_document_id : Option String
  pub llm_decision : Option String
  pub llm_reason : Option String
  pub llm_relevance_score : Option ℕ
  pub canonical_hint : Option String
  pub canonical_source : Option String
  pub site_profile_id : Option String
  pub render_mode : String
  pub redirect_chain : List String

pub record Job : Type 0 where
  pub id : String
  pub owner : String
  pub url : String
  pub origin : String
  pub source : String
  pub budget_id : String
  pub rule_id : Option String
  pub submitted_by : Option String
  pub discovery_scope : String
  pub discovery_host : Option String
  pub network : String
  pub depth : ℕ
  pub max_depth : ℕ
  pub max_pages : ℕ
  pub same_origin_concurrency : ℕ
  pub max_discovered_urls_per_page : ℕ
  pub attempt_count : ℕ
  pub max_attempts : ℕ
  pub priority : ℕ
  pub discovered_at : ℕ
  pub requires_js : Bool
  pub status : Status
  pub claimed_by : Option String
  pub claimed_at : Option ℕ
  pub lease_id : Option String
  pub next_retry_at : Option ℕ
  pub finished_at : Option ℕ
  pub failure_kind : Option String
  pub failure_message : Option String
  pub fetched : Fetched

pub record Origin : Type 0 where
  pub owner : String
  pub key : String
  pub robots_status : String
  pub crawl_delay_secs : Option ℕ
  pub next_allowed_at : ℕ
  pub in_flight_count : ℕ
  pub last_fetch_status : Option ℕ
  pub consecutive_failures : ℕ
  pub robots_sitemaps : List String
  pub updated_at : ℕ

-- The states of an ingest item; those of a batch are spelled the same.
pub data Stage : Type 0 where
  pending processing completed failed : Stage

pub record Item : Type 0 where
  pub id : String
  pub lease_id : String
  pub owner : String
  pub crawler_id : String
  pub job_id : String
  pub blob_id : String
  pub stage : Stage
  pub created_at : ℕ
  pub started_at : Option ℕ
  pub finished_at : Option ℕ
  pub error_message : Option String

pub record Batch : Type 0 where
  pub lease_id : String
  pub owner : String
  pub crawler_id : String
  pub stage : Stage
  pub result_count : ℕ
  pub started_at : Option ℕ
  pub finished_at : Option ℕ
  pub error_message : Option String

-- A line of `crawl_events`, without its id, its text and its time.
pub record Event : Type 0 where
  pub owner : String
  pub crawler_id : Option String
  pub event_type : String
  pub status : String
  pub url : Option String

-- A comparison with a nullable column is not true at null.
abbrev pub holds : Option String → String → Bool
holds none s = false
holds (some t) s = str_eq t s
