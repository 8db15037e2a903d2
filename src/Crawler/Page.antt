-- ===== src/Crawler/Page.antt =====
-- services/crawler/src/worker.rs: what `process_job` works on. What its calls answer is given by `Tools`;
-- a report is the record that the API reads, without `site_authority`.
use Prim.Native.String
use find_verse.Crawl.Outcome.{CrawlResult}
use find_verse.Crawler.Robots.{RobotsSnapshot}
use find_verse.Crawler.RobotsTags.{RobotsDirectives}
use find_verse.Crawler.SiteRules.{PageAction, allow_index_discover}
use find_verse.Prelude.{
  ℕ, List, [], ◌∷◌, String, Option, none, some, Bool, true, false, not, ◌&&◌, ◌||◌, leb, ◌==◌,
  str_eq, any, is_empty_str, trim, ends_with, set_insert, print_decimal, if◌then◌else◌,
}

pub record CrawlJob : Type 0 where
  pub job_id : String
  pub url : String
  pub depth : ℕ
  pub etag : Option String
  pub last_modified : Option String

pub record ParsedHtml : Type 0 where
  pub title : Option String
  pub snippet : Option String
  pub body : Option String
  pub canonical_url : Option String
  pub discovered_urls : List String
  pub robots_directives : RobotsDirectives

pub record FetchedPage : Type 0 where
  pub status_code : ℕ
  pub url : String
  pub redirect_chain : List String
  pub retry_after_secs : Option ℕ
  pub etag : Option String
  pub last_modified : Option String
  pub content_type : Option String
  pub x_robots_tags : List String
  pub text : String

-- What `fetch_with_retry` comes back with.
pub data PageFetch : Type 0 where
  page : FetchedPage → PageFetch
  blocked_by_robots : (url status : String) → PageFetch
  too_many_redirects : (chain : List String) → PageFetch
  request_failed : (error : String) → PageFetch

-- The answers of the network, of the browser, and of the code in extract.rs, js_render.rs and
-- sitemap.rs; robots.txt is asked twice. A sitemap that cannot be read has no addresses.
pub record Tools : Type 0 where
  pub initial_robots : String → RobotsSnapshot
  pub final_robots : String → RobotsSnapshot
  pub fetch_with_retry : CrawlJob → PageFetch
  pub parse_html_document : (url html : String) → ParsedHtml
  pub needs_js_rendering : (html text : String) → Bool
  pub render_with_js : String → Option String
  pub fetch_and_parse_sitemap : String → List String
  pub detect_language : String → Option String
  pub profile_error : String

abbrev pub max_discovered_urls_per_report : ℕ
max_discovered_urls_per_report = 200

unfoldable pub base_report : CrawlJob → (fetched_at : ℕ) → (network : String) → CrawlResult
base_report job fetched_at network = record {
  job_id = job.job_id;
  url = job.url;
  status_code = 0;
  fetched_at = fetched_at;
  final_url = none;
  redirect_chain = [];
  content_type = none;
  title = none;
  snippet = none;
  body = none;
  canonical_hint = none;
  canonical_source = none;
  language = none;
  discovered_urls = [];
  llm_should_index = none;
  llm_should_discover = none;
  llm_relevance_score = none;
  llm_reason = none;
  retryable = none;
  error_kind = none;
  error_message = none;
  site_profile_id = none;
  network = network;
  http_etag = none;
  http_last_modified = none;
  applied_crawl_delay_secs = none;
  retry_after_secs = none;
  robots_status = none;
  robots_sitemaps = [];
  render_mode = "static";
}

unfoldable pub http_failure_kind : ℕ → String
unfolding print_decimal
http_failure_kind status_code =
    if status_code == 401 || status_code == 403
    then "blocked"
    else if status_code == 404
    then "http_404"
    else if status_code == 429
    then "http_429"
    else if leb 500 status_code && leb status_code 599
    then "http_5xx"
    else String.◌++◌ "http_" (print_decimal status_code)

unfoldable pub last_or : String → List String → String
last_or d [] = d
last_or d (x ∷ []) = x
last_or d (x ∷ y ∷ rest) = last_or d (y ∷ rest)

unfoldable pub is_domain_allowed : List String → String → Bool
unfolding ends_with
is_domain_allowed domains host =
    any (λ domain. str_eq host domain || ends_with host (String.◌++◌ "." domain)) domains

unfoldable pub all_sources : List String → List String → List String
unfolding set_insert
all_sources [] sources = sources
all_sources (source ∷ rest) sources = set_insert source (all_sources rest sources)

unfoldable pub has_content : Option String → Bool
unfolding trim is_empty_str
has_content none = false
has_content (some text) = not (is_empty_str (trim text))

abbrev pub discovers : PageAction → Bool
discovers allow_index_discover = true
discovers _ = false
