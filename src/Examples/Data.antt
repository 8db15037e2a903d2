-- ===== src/Examples/Data.antt =====
-- An address library that takes every text for the host of a https address, and the rows of a queue
-- with one origin.
use find_verse.External.{Platform}
use find_verse.Common.Scope.{same_domain}
use find_verse.Crawl.Rows.{Job, Origin, Item, Status, queued, claimed, failed, pending}
use find_verse.Common.Error.{internal}
use find_verse.Crawl.Outcome.{CrawlResult, Document}
use find_verse.Crawl.Store.{Db, Rule}
use find_verse.Crawl.Enqueue.{EnqueueRequest}
use find_verse.Crawl.Apply.{SearchIndex}
use find_verse.Crawler.Fetch.{Network}
use find_verse.Prelude.{ℕ, zero, suc, ◌+◌, ◌∷◌, List, [], String, none, some, true, false}

abbrev pub sample_platform : Platform
sample_platform = record {
  Url = String;
  parse = λ s. some s;
  scheme = λ u. "https";
  host_str = λ u. some u;
  port = λ u. none;
  path = λ u. "/";
  query_pairs = λ u. [];
  clear_port = λ u. u;
  clear_fragment = λ u. u;
  set_query = λ q u. u;
  set_path = λ p u. u;
  to_string = λ u. u;
  join_url = λ u s. some s;
  to_lowercase = λ s. s;
  is_alphanumeric = λ c. true;
  sha256 = λ s. [];
}

-- An index that takes every page, and one that refuses all.
abbrev pub open_index : SearchIndex
open_index = record {
  upsert_document = λ documents d. (d ∷ documents, true);
  purge_site = λ site documents. ([], none);
  delete_document = λ id documents. documents;
}

abbrev pub shut_index : SearchIndex
shut_index = record {
  upsert_document = λ documents d. (d ∷ documents, false);
  purge_site = λ site documents. (documents, some (internal "index"));
  delete_document = λ id documents. documents;
}

-- A network that redirects every request, and fails no one.
abbrev pub turning_network : Network
turning_network = record {
  World = ℕ;
  inspect_robots = λ url w. (w, true, "unrestricted");
  rate_limit_origin = λ url w. w + 1;
  send = λ first url w.
      (w, some (record { status = 302; location = some "next"; retry_after_secs = none }));
  sleep_secs = λ secs w. w + secs;
}

-- The ids that are drawn: "", "i", "ii" and so on.
abbrev pub tally_id : ℕ → String
tally_id zero = ""
tally_id (suc n) = String.◌∷◌ "i" (tally_id n)

abbrev pub job_of : String → String → Status → Job
job_of id url status = record {
  id = id;
  owner = "owner";
  url = url;
  origin = "https://host";
  source = "seed";
  budget_id = "budget";
  rule_id = none;
  submitted_by = none;
  discovery_scope = "any";
  discovery_host = none;
  network = "clearnet";
  depth = 0;
  max_depth = 2;
  max_pages = 10;
  same_origin_concurrency = 1;
  max_discovered_urls_per_page = 2;
  attempt_count = 1;
  max_attempts = 3;
  priority = 80;
  discovered_at = 0;
  requires_js = false;
  status = status;
  claimed_by = none;
  claimed_at = none;
  lease_id = none;
  next_retry_at = none;
  finished_at = none;
  failure_kind = none;
  failure_message = none;
  fetched = record {
    final_url = none;
    content_type = none;
    http_status = none;
    discovered_urls_count = 0;
    accepted_document_id = none;
    llm_decision = none;
    llm_reason = none;
    llm_relevance_score = none;
    canonical_hint = none;
    canonical_source = none;
    site_profile_id = none;
    render_mode = "static";
    redirect_chain = [];
  };
}

-- Two queued jobs of one origin, and one that a crawler held since the time 0.
abbrev pub two_jobs : List Job
two_jobs = job_of "1" "https://host/a" queued ∷ job_of "2" "https://host/b" queued ∷ []

abbrev pub held_job : Job
held_job = record (job_of "3" "https://host/c" claimed) {
  claimed_by = some "crawler";
  claimed_at = some 0;
  lease_id = some "lease";
}

abbrev pub mixed_jobs : List Job
mixed_jobs = held_job ∷ job_of "4" "https://host/d" failed ∷ two_jobs

abbrev pub host_origin : Origin
host_origin = record {
  owner = "owner";
  key = "https://host";
  robots_status = "unknown";
  crawl_delay_secs = none;
  next_allowed_at = 0;
  in_flight_count = 0;
  last_fetch_status = none;
  consecutive_failures = 0;
  robots_sitemaps = [];
  updated_at = 0;
}

abbrev pub hourly_rule : Rule
hourly_rule = record {
  id = "rule";
  owner = "owner";
  name = "hourly";
  seed_url = "https://host";
  interval_minutes = 60;
  max_depth = 1;
  max_pages = 10;
  same_origin_concurrency = 1;
  discovery_scope = "any";
  max_discovered_urls_per_page = 5;
  enabled = true;
  last_enqueued_at = none;
}

abbrev pub db_of : List Job → Db
db_of jobs = record {
  jobs = jobs;
  origins = host_origin ∷ [];
  items = [];
  batches = [];
  events = [];
  rules = hourly_rule ∷ [];
  stats = [];
  edges = [];
  blacklist = [];
  documents = [];
}

abbrev pub two_seeds : EnqueueRequest
two_seeds = record {
  developer_id = "owner";
  urls = "https://host/a" ∷ "https://host/b" ∷ "https://host/c" ∷ [];
  source = "seed";
  budget_id = "budget";
  depth = 0;
  max_depth = 2;
  max_pages = 2;
  same_origin_concurrency = 1;
  submitted_by = none;
  rule_id = none;
  discovery_scope = same_domain;
  discovery_host = none;
  max_discovered_urls_per_page = 5;
  allow_revisit = false;
}

abbrev pub ok_report : CrawlResult
ok_report = record {
  job_id = "3";
  url = "https://host/c";
  status_code = 200;
  fetched_at = 5;
  final_url = none;
  redirect_chain = [];
  content_type = some "text/html";
  title = some "Title";
  snippet = none;
  body = some "Body";
  canonical_hint = none;
  canonical_source = none;
  language = none;
  discovered_urls = "https://host/d" ∷ "https://host/e" ∷ "https://host/f" ∷ [];
  llm_should_index = none;
  llm_should_discover = none;
  llm_relevance_score = none;
  llm_reason = none;
  retryable = none;
  error_kind = none;
  error_message = none;
  site_profile_id = none;
  network = "clearnet";
  http_etag = none;
  http_last_modified = none;
  applied_crawl_delay_secs = some 10;
  retry_after_secs = none;
  robots_status = none;
  robots_sitemaps = [];
  render_mode = "static";
}

abbrev pub busy_report : CrawlResult
busy_report = record ok_report { status_code = 503; title = none; body = none }

abbrev pub page_item : Item
page_item = record {
  id = "item";
  lease_id = "lease";
  owner = "owner";
  crawler_id = "crawler";
  job_id = "3";
  blob_id = "blob";
  stage = pending;
  created_at = 0;
  started_at = none;
  finished_at = none;
  error_message = none;
}

abbrev pub page : Document
page = record {
  id = "page";
  title = "Title";
  url = "https://host/c";
  display_url = "host/c";
  snippet = "Body";
  body = "Body";
  language = "en";
  last_crawled_at = 5;
  canonical_url = "https://host/c";
  host = some "host";
  content_hash = none;
  suggest_terms = [];
  content_type = "text/html";
  word_count = 1;
  network = "clearnet";
  source_job_id = some "3";
  duplicate_of = none;
}
