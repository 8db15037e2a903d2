-- ===== src/Examples/Pages.antt =====
-- The theorems on robots.txt, on the rules of sites and on the reports of pages, applied.
use find_verse.Crawl.Rows.{queued}
use find_verse.Crawl.Outcome.{classify_job_outcome}
use find_verse.Crawler.Robots.{
  RobotReader, unanswered, answered, TaskWrite, stored, requested, task_writes, WorkerState,
  new_worker, inspect_robots, crawl_delay, unrestricted_snapshot,
}
use find_verse.Crawler.Robots.Known.{KnowsAll, IsByRules, inspect_robots-KnowsAll}
use find_verse.Crawler.Robots.Pauses.{Request, IsSpaced, departures, departures-IsSpaced}
use find_verse.Crawler.RobotsTags.{parse_x_robots_tag_values}
use find_verse.Crawler.SiteRules.{
  CompiledPageRule, allow_index_discover, deny, PresetOverride, RuleRegistry, unknown_preset,
  apply_override, page_decision,
}
use find_verse.Crawler.SiteRules.Override.{Verdict, apply_override-page_decision}
use find_verse.Crawler.Page.{CrawlJob, FetchedPage, page, Tools}
use find_verse.Crawler.Process.{process_job}
use find_verse.Crawler.Process.Indexed.{IsIndexed, process_job-IsIndexed}
use find_verse.Examples.Data.{sample_platform, job_of}
use find_verse.Prelude.{◌+◌, ◌*◌, List, [], ◌∷◌, String, some, none, false, ◌≡◌, refl, true, arith}

-- A reader that takes every file for a ban.
abbrev strict_reader : RobotReader
strict_reader = record { Robot = String; read = λ body. some body; allows = λ robot url. false }

-- Another task could not get a file, and one got another.
abbrev first_writes : List (TaskWrite strict_reader sample_platform)
first_writes =
    stored 1 "https://host" false unanswered ∷ stored 2 "https://a" false (answered 200 "x") ∷ []

inspect_robots-KnowsAll_example :
    let out =
      inspect_robots strict_reader sample_platform 5 "host" unanswered
        (task_writes strict_reader sample_platform (requested "https://host" 4 ∷ []))
        (task_writes strict_reader sample_platform first_writes (new_worker strict_reader)) in
    KnowsAll strict_reader sample_platform out.0 × IsByRules strict_reader sample_platform out.1
inspect_robots-KnowsAll_example =
    inspect_robots-KnowsAll strict_reader sample_platform 5 "host" unanswered first_writes
      (requested "https://host" 4 ∷ [])

abbrev two_requests : List (Request strict_reader "https://host")
two_requests =
    record { gap = 10; jitter_ms = 900; late = 1 }
    ∷ record { gap = 5000; jitter_ms = 800; late = 0 }
    ∷ []

abbrev visited : WorkerState strict_reader
visited = record { robots_cache = []; origin_last_request = ("https://host", 100) ∷ [] }

departures-IsSpaced_example :
    IsSpaced strict_reader "https://host"
      (crawl_delay strict_reader "https://host" visited * 1000 + 800)
      100
      (departures strict_reader "https://host" two_requests 100 visited)
unfolding crawl_delay
departures-IsSpaced_example =
    departures-IsSpaced strict_reader "https://host" two_requests 100 visited (omega arith)
      ((omega arith, omega arith), ((omega arith, omega arith), tt)) refl

-- A rule for every page.
abbrev every_page : CompiledPageRule
every_page = record {
  action = deny;
  reason = some "closed";
  hosts = [];
  host_suffixes = [];
  path_exacts = [];
  path_prefixes = [];
  path_regex = none;
  query_keys = [];
  query_values = [];
  query_value_prefixes = [];
}

abbrev closed_site : PresetOverride
closed_site = record {
  id = "closed";
  prefer_js = none;
  default_action = some allow_index_discover;
  discovery_sources = [];
  rules = every_page ∷ [];
}

apply_override-page_decision_example :
    Verdict sample_platform unknown_preset closed_site "host"
      (page_decision sample_platform (apply_override unknown_preset closed_site) "host")
apply_override-page_decision_example =
    apply_override-page_decision sample_platform unknown_preset closed_site "host" "host" refl

abbrev plain_page : FetchedPage
plain_page = record {
  status_code = 200;
  url = "host";
  redirect_chain = [];
  retry_after_secs = none;
  etag = none;
  last_modified = none;
  content_type = some "text/html";
  x_robots_tags = [];
  text = "words";
}

abbrev plain_tools : Tools
plain_tools = record {
  initial_robots = λ url. unrestricted_snapshot;
  final_robots = λ url. unrestricted_snapshot;
  fetch_with_retry = λ job. page plain_page;
  parse_html_document = λ url html. record {
    title = some "title";
    snippet = none;
    body = some html;
    canonical_url = none;
    discovered_urls = "next" ∷ [];
    robots_directives = record { noindex = false; nofollow = false };
  };
  needs_js_rendering = λ html text. false;
  render_with_js = λ url. none;
  fetch_and_parse_sitemap = λ source. [];
  detect_language = λ text. none;
  profile_error = "no rules";
}

abbrev no_rules : RuleRegistry
no_rules = record { platform_identifiers = []; platform_presets = []; site_presets = [] }

abbrev first_job : CrawlJob
first_job = record { job_id = "1"; url = "host"; depth = 0; etag = none; last_modified = none }

process_job-IsIndexed_example :
    IsIndexed sample_platform plain_tools no_rules first_job [] false 7 "clearnet" (
      classify_job_outcome sample_platform 9
        (process_job sample_platform plain_tools no_rules first_job [] false 7 "clearnet")
        (job_of "1" "host" queued))
process_job-IsIndexed_example =
    process_job-IsIndexed sample_platform plain_tools no_rules first_job [] false 7 "clearnet" 9
      (job_of "1" "host" queued)

-- A header for everyone, and one for another agent.
tags_read :
    parse_x_robots_tag_values ("noindex, otherbot: nofollow" ∷ "FindVerseCrawler: none" ∷ [])
    ≡ record { noindex = true; nofollow = true }
unfolding parse_x_robots_tag_values
tags_read = refl

other_agent :
    parse_x_robots_tag_values ("otherbot: noindex, nofollow" ∷ [])
    ≡ record { noindex = false; nofollow = false }
unfolding parse_x_robots_tag_values
other_agent = refl
