-- ===== src/Crawler/Discovery.antt =====
-- services/crawler/src/worker.rs: the addresses that `process_job` reports as discovered by a page.
use Prim.Native.String
use find_verse.External.{Platform}
use find_verse.Common.Address.{normalize_url, origin_key}
use find_verse.Crawler.Robots.{RobotsSnapshot}
use find_verse.Crawler.RobotsTags.{RobotsDirectives}
use find_verse.Crawler.SiteRules.{
  is_deny, EffectivePreset, RuleRegistry, discovery_sources, page_action,
}
use find_verse.Prelude.{
  List, [], ◌∷◌, ◌++◌, String, none, some, Bool, false, not, ◌&&◌, ◌||◌, ◌==◌, str_eq, take,
  is_empty, is_empty_str, select_where, set_insert, if◌then◌else◌,
}
use find_verse.Crawler.Page.{
  CrawlJob, ParsedHtml, Tools, max_discovered_urls_per_report, is_domain_allowed, all_sources,
  discovers,
}

module _ (platform : Platform) (tools : Tools) (registry : RuleRegistry) where
  open platform use {parse, host_str, path, to_lowercase}
  open tools use {
    initial_robots, final_robots, fetch_with_retry, parse_html_document, needs_js_rendering,
    render_with_js, fetch_and_parse_sitemap, detect_language, profile_error,
  }

  unfoldable pub url_is_allowed : List String → String → Bool
  unfolding is_domain_allowed
  url_is_allowed domains url = elim (parse url) [
    | none ↦ false
    | some parsed ↦ elim (host_str parsed) [
      | none ↦ false
      | some host ↦ is_domain_allowed domains (to_lowercase host)
    ]
  ]

  unfoldable pub filter_urls_by_domain : List String → List String → List String
  unfolding url_is_allowed
  filter_urls_by_domain urls domains = select_where (url_is_allowed domains) urls

  unfoldable pub normalize_discovered_urls : List String → List String
  unfolding normalize_url set_insert
  normalize_discovered_urls [] = []
  normalize_discovered_urls (url ∷ urls) =
      let rest = normalize_discovered_urls urls in
      elim (normalize_url platform url) [ none ↦ rest | some clean ↦ set_insert clean rest ]

  -- The page at the top of a site, where feeds are looked for.
  abbrev pub is_entry : CrawlJob → String → Bool
  is_entry job final_url = elim (parse final_url) [
    | none ↦ false
    | some url ↦ job.depth == 0 || str_eq (path url) "/" || is_empty_str (path url)
  ]

  unfoldable pub feeds_of : EffectivePreset → RobotsSnapshot → String → List String
  unfolding origin_key discovery_sources all_sources
  feeds_of profile robots final_url =
      let own = λ (origin : String). discovery_sources profile origin in
      elim (origin_key platform final_url) [
        | none ↦ all_sources robots.sitemap_urls []
        | some origin ↦
            if is_empty robots.sitemap_urls
            then all_sources (String.◌++◌ origin "/sitemap.xml" ∷ own origin) []
            else all_sources (robots.sitemap_urls ++ own origin) []
      ]

  unfoldable pub feed_urls : List String → List String
  feed_urls [] = []
  feed_urls (source ∷ rest) = fetch_and_parse_sitemap source ++ feed_urls rest

  -- The addresses that a page brings in, at most as many as a report may have.
  unfoldable pub discovered :
      CrawlJob
      → EffectivePreset
      → RobotsSnapshot
      → RobotsDirectives
      → ParsedHtml
      → String
      → (allowed_domains : List String) → List String
  unfolding page_action feeds_of feed_urls normalize_discovered_urls filter_urls_by_domain
  discovered job profile robots directives parsed final_url allowed_domains =
      let follows = not directives.nofollow && discovers (page_action platform profile final_url) in
      let found =
        (if follows then parsed.discovered_urls else [])
        ++ (if follows && is_entry job final_url
            then feed_urls (feeds_of profile robots final_url)
            else []) in
      let kept =
        select_where (λ url. not (is_deny (page_action platform profile url)))
          (normalize_discovered_urls found) in
      take max_discovered_urls_per_report
        (if is_empty allowed_domains then kept else filter_urls_by_domain kept allowed_domains)
