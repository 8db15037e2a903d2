-- ===== src/Crawler/Process.antt =====
-- services/crawler/src/worker.rs: `process_job`, which makes a report of a job.
pub mod Reports
pub mod Indexed
pub mod Vouched
use Prim.Native.String
use find_verse.External.{Platform}
use find_verse.Common.Address.{normalize_url, origin_key}
use find_verse.Crawl.Outcome.{CrawlResult}
use find_verse.Crawler.Robots.{RobotsSnapshot}
use find_verse.Crawler.RobotsTags.{RobotsDirectives, merge, parse_x_robots_tag_values}
use find_verse.Crawler.SiteRules.{
  PageAction, allow_index_discover, is_deny, EffectivePreset, RuleRegistry, has_text,
  discovery_sources, page_action, filtered_reason, detect,
}
use find_verse.Prelude.{
  ℕ, List, [], ◌∷◌, ◌++◌, String, Option, none, some, Bool, true, false, not, ◌&&◌, ◌||◌, ltb, leb,
  ◌==◌, str_eq, unwrap_or, or_else, is_some, any, take, is_empty, is_empty_str, trim, ends_with,
  select_where, set_insert, print_decimal, if◌then◌else◌,
}
use find_verse.Crawler.Page.{
  CrawlJob, ParsedHtml, FetchedPage, PageFetch, Tools, max_discovered_urls_per_report, base_report,
  http_failure_kind, last_or, is_domain_allowed, all_sources, has_content, discovers, page,
  blocked_by_robots, too_many_redirects, request_failed,
}
use find_verse.Crawler.Discovery.{
  url_is_allowed, filter_urls_by_domain, normalize_discovered_urls, is_entry, feeds_of, feed_urls,
  discovered,
}

module _ (platform : Platform) (tools : Tools) (registry : RuleRegistry) where
  open platform use {parse, host_str, path, to_lowercase}
  open tools use {
    initial_robots, final_robots, fetch_with_retry, parse_html_document, needs_js_rendering,
    render_with_js, fetch_and_parse_sitemap, detect_language, profile_error,
  }

  -- The columns of every report on an answer.
  unfoldable pub page_report :
      CrawlJob → ℕ → String → FetchedPage → String → RobotsSnapshot → CrawlResult
  unfolding base_report
  page_report job fetched_at network p final_url robots =
      record (base_report job fetched_at network) {
        status_code = p.status_code;
        final_url = some final_url;
        redirect_chain = p.redirect_chain;
        retry_after_secs = p.retry_after_secs;
        robots_status = some robots.status;
        robots_sitemaps = robots.sitemap_urls;
      }

  -- Those of every report on a page of HTML that has been parsed.
  unfoldable pub html_report :
      CrawlResult → FetchedPage → String → RobotsSnapshot → ParsedHtml → CrawlResult
  html_report r p content_type robots parsed = record r {
    content_type = some content_type;
    title = parsed.title;
    snippet = parsed.snippet;
    retryable = some false;
    http_etag = p.etag;
    http_last_modified = p.last_modified;
    applied_crawl_delay_secs = robots.crawl_delay_secs;
  }

  -- From the test of the site's rules on.
  unfoldable pub finish_report :
      CrawlJob
      → List String
      → FetchedPage
      → String
      → RobotsSnapshot
      → ParsedHtml
      → EffectivePreset
      → (render_mode : String) → CrawlResult
      → CrawlResult
  unfolding filtered_reason discovered has_content parse_x_robots_tag_values
  finish_report job allowed_domains p final_url robots parsed profile render_mode r =
      let directives = merge (parse_x_robots_tag_values p.x_robots_tags) parsed.robots_directives in
      let urls =
        discovered platform tools registry job profile robots directives parsed final_url
          allowed_domains in
      let marked = record r {
        canonical_hint = parsed.canonical_url;
        site_profile_id = some profile.id;
        render_mode = render_mode;
      } in
      let full = record marked {
        canonical_source = elim parsed.canonical_url [
          | none ↦ none
          | some url ↦ some "rel_canonical"
        ];
        language =
            or_else (elim parsed.body [ none ↦ none | some text ↦ detect_language text ])
              (some "unknown");
        discovered_urls = urls;
      } in
      elim (filtered_reason platform profile final_url) [
        | some reason ↦ record marked {
          error_kind = some "site_profile_filtered";
          error_message = some reason;
        }
        | none ↦
            if directives.noindex
            then record full {
              error_kind = some "page_noindex";
              error_message = some "page requested noindex via robots directives";
            }
            else if not (has_content parsed.body)
            then record full {
              error_kind = some "empty_document";
              error_message = some "parsed page had no indexable body";
            }
            else record full { body = parsed.body }
      ]

  unfoldable pub invalid_profile : CrawlResult → CrawlResult
  invalid_profile r = record r {
    error_kind = some "site_profile_config_invalid";
    error_message = some profile_error;
  }

  -- The page that a browser has drawn, with the preset that its text leads to.
  unfoldable pub drawn_report :
      CrawlJob
      → List String
      → FetchedPage
      → String
      → RobotsSnapshot
      → ParsedHtml
      → (old_id : String) → CrawlResult
      → Option EffectivePreset
      → CrawlResult
  unfolding finish_report invalid_profile
  drawn_report job allowed_domains p final_url robots again old_id s none =
      record (invalid_profile s) { site_profile_id = some old_id; render_mode = "browser" }
  drawn_report job allowed_domains p final_url robots again old_id s (some drawn) =
      finish_report job allowed_domains p final_url robots again drawn "browser" s

  -- A page that a browser has to draw first. Without an answer of the browser the static page is used.
  unfoldable pub render_report :
      CrawlJob
      → List String
      → FetchedPage
      → String
      → String
      → RobotsSnapshot
      → ParsedHtml
      → EffectivePreset
      → CrawlResult
      → Option String
      → CrawlResult
  unfolding detect finish_report html_report drawn_report
  render_report job allowed_domains p content_type final_url robots parsed profile r none =
      finish_report job allowed_domains p final_url robots parsed profile "static"
        (html_report r p content_type robots parsed)
  render_report job allowed_domains p content_type final_url robots parsed profile r (some html) =
      let again = parse_html_document final_url html in
      drawn_report job allowed_domains p final_url robots again profile.id
        (html_report r p content_type robots again) (detect platform registry final_url html)

  unfoldable pub profile_report :
      CrawlJob
      → List String
      → (js_render : Bool) → FetchedPage
      → String
      → String
      → RobotsSnapshot
      → ParsedHtml
      → CrawlResult
      → Option EffectivePreset
      → CrawlResult
  unfolding render_report finish_report html_report invalid_profile
  profile_report job allowed_domains js_render p content_type final_url robots parsed r none =
      invalid_profile (html_report r p content_type robots parsed)
  profile_report job allowed_domains js_render p content_type final_url robots parsed r
        (some profile) =
      let s = html_report r p content_type robots parsed in
      if profile.prefer_js || needs_js_rendering p.text (unwrap_or parsed.body "")
      then if not js_render
        then record s {
          retryable = some true;
          error_kind = some "requires_js_render";
          error_message = some "page requires JS rendering but this crawler node has no browser";
          site_profile_id = some profile.id;
        }
        else render_report job allowed_domains p content_type final_url robots parsed profile r
            (render_with_js final_url)
      else finish_report job allowed_domains p final_url robots parsed profile "static" s

  unfoldable pub answer_report :
      CrawlJob → List String → (js_render : Bool) → ℕ → String → FetchedPage → CrawlResult
  unfolding normalize_url page_report profile_report detect http_failure_kind has_text print_decimal
  answer_report job allowed_domains js_render fetched_at network p =
      let final_url = unwrap_or (normalize_url platform p.url) p.url in
      let robots = final_robots final_url in
      let content_type = unwrap_or p.content_type "application/octet-stream" in
      let r = page_report job fetched_at network p final_url robots in
      if p.status_code == 304
      then record r {
        retryable = some false;
        http_etag = job.etag;
        http_last_modified = job.last_modified;
        applied_crawl_delay_secs = robots.crawl_delay_secs;
      }
      else if not (leb 200 p.status_code && ltb p.status_code 300)
      then record r {
        content_type = some content_type;
        retryable = some (p.status_code == 429 || leb 500 p.status_code);
        error_kind = some (http_failure_kind p.status_code);
        error_message = some (String.◌++◌ "fetch returned status " (print_decimal p.status_code));
      }
      else if not (has_text content_type "text/html")
      then record r {
        content_type = some content_type;
        retryable = some false;
        error_kind = some "unsupported_content_type";
        error_message = some (String.◌++◌ "unsupported content type " content_type);
        applied_crawl_delay_secs = robots.crawl_delay_secs;
      }
      else profile_report job allowed_domains js_render p content_type final_url robots
          (parse_html_document final_url p.text) r (detect platform registry final_url p.text)

  unfoldable pub fetch_report :
      CrawlJob → List String → (js_render : Bool) → ℕ → String → PageFetch → CrawlResult
  unfolding base_report answer_report last_or
  fetch_report job allowed_domains js_render fetched_at network (page p) =
      answer_report job allowed_domains js_render fetched_at network p
  fetch_report job allowed_domains js_render fetched_at network (blocked_by_robots url status) =
      record (base_report job fetched_at network) {
        status_code = 599;
        final_url = some url;
        retryable = some false;
        error_kind = some "robots";
        error_message = some (String.◌++◌ "blocked by robots (" (String.◌++◌ status ")"));
        robots_status = some status;
      }
  fetch_report job allowed_domains js_render fetched_at network (too_many_redirects chain) =
      record (base_report job fetched_at network) {
        status_code = 310;
        final_url = some (last_or job.url chain);
        redirect_chain = chain;
        retryable = some false;
        error_kind = some "redirect_loop";
        error_message = some "too many redirects";
      }
  fetch_report job allowed_domains js_render fetched_at network (request_failed error) =
      record (base_report job fetched_at network) {
        status_code = 599;
        retryable = some true;
        error_kind = some "network_error";
        error_message = some error;
      }

  -- `is_onion_url`
  unfoldable pub is_onion_url : String → Bool
  unfolding ends_with
  is_onion_url url = elim (parse url) [
    | none ↦ false
    | some parsed ↦ elim (host_str parsed) [ none ↦ false | some host ↦ ends_with host ".onion" ]
  ]

  -- The network of a job: the one it names, if it is known.
  unfoldable pub job_network : (network url : String) → String
  unfolding is_onion_url
  job_network network url =
      if str_eq network "clearnet" || str_eq network "tor"
      then network
      else if is_onion_url url
      then "tor"
      else "clearnet"

  unfoldable pub process_job :
      CrawlJob
      → List String
      → (js_render : Bool) → (fetched_at : ℕ) → (network : String) → CrawlResult
  unfolding base_report fetch_report
  process_job job allowed_domains js_render fetched_at network =
      let robots = initial_robots job.url in
      if not robots.allowed
      then record (base_report job fetched_at network) {
        status_code = 599;
        final_url = some job.url;
        retryable = some false;
        error_kind = some "robots";
        error_message = some (String.◌++◌ "blocked by robots (" (String.◌++◌ robots.status ")"));
        applied_crawl_delay_secs = robots.crawl_delay_secs;
        robots_status = some robots.status;
        robots_sitemaps = robots.sitemap_urls;
      }
      else fetch_report job allowed_domains js_render fetched_at network (fetch_with_retry job)
