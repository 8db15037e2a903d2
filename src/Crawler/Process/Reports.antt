-- ===== src/Crawler/Process/Reports.antt =====
-- What the reports of `process_job` in services/crawler/src/worker.rs have in common, and what
-- services/api/src/crawler.rs makes of them.
use find_verse.External.{Platform}
use find_verse.Common.Address.{normalize_url}
use find_verse.Crawl.Outcome.{CrawlResult, is_success}
use find_verse.Crawler.Robots.{RobotsSnapshot}
use find_verse.Crawler.RobotsTags.{RobotsDirectives, merge, parse_x_robots_tag_values}
use find_verse.Crawler.SiteRules.{EffectivePreset, RuleRegistry, has_text, detect}
use find_verse.Crawler.Page.{
  CrawlJob, ParsedHtml, FetchedPage, PageFetch, page, blocked_by_robots, too_many_redirects,
  request_failed, Tools, base_report, has_content,
}
use find_verse.Crawler.Discovery.{discovered}
use find_verse.Crawler.Process.{
  page_report, html_report, finish_report, invalid_profile, drawn_report, render_report,
  profile_report, answer_report, fetch_report, process_job,
}
use find_verse.Prelude.{
  ℕ, ◌≤◌, List, [], String, Option, none, some, Bool, true, false, not, ◌&&◌, ◌||◌, ◌≡◌, refl,
  length, leb, ltb, ◌==◌, length-take-le, is_some, is_none, unwrap_or, if_elim, arith,
}

-- A report brings in 200 addresses at most; it has a body only where the page was fetched and nothing
-- speaks against it; and such a page has a body with text.
pub record IsWhole (r : CrawlResult) : Type 0 where
  pub few : length r.discovered_urls ≤ 200
  pub clean : is_some r.body ≡ true → (is_success r.status_code ≡ true) × (r.error_kind ≡ none)
  pub filled : is_success r.status_code ≡ true → r.error_kind ≡ none → has_content r.body ≡ true

-- A report that has neither a body nor addresses yet.
abbrev pub IsBare : CrawlResult → Type 0
IsBare r = (r.body ≡ none) × (r.discovered_urls ≡ [])

-- A bare report that names an error is whole.
refused-IsWhole :
    (r : CrawlResult)
    → IsBare r
    → (is_success r.status_code && is_none r.error_kind) ≡ false
    → IsWhole r
refused-IsWhole r bare e = ground (arith, bare, e)

module _ (platform : Platform) (tools : Tools) (registry : RuleRegistry) where
  discovered-few :
      (job : CrawlJob) (profile : EffectivePreset) (robots : RobotsSnapshot)
      (directives : RobotsDirectives) (parsed : ParsedHtml) (url : String) (domains : List String)
      → length (discovered platform tools registry job profile robots directives parsed url domains)
        ≤ 200
  unfolding discovered
  discovered-few job profile robots directives parsed url domains = length-take-le 200 _

  finish_report-IsWhole :
      (job : CrawlJob) (domains : List String) (p : FetchedPage) (url : String)
      (robots : RobotsSnapshot) (parsed : ParsedHtml) (profile : EffectivePreset) (mode : String)
      (r : CrawlResult)
      → IsBare r
      → is_success r.status_code ≡ true
      → r.error_kind ≡ none
      → IsWhole
          (finish_report platform tools registry job domains p url robots parsed profile mode r)
  unfolding finish_report
  finish_report-IsWhole job domains p url robots parsed profile mode r bare s e = ground (
    arith,
    bare,
    discovered-few job profile robots
        (merge (parse_x_robots_tag_values p.x_robots_tags) parsed.robots_directives) parsed url
        domains,
  )

  invalid_profile-IsWhole :
      (r : CrawlResult) (id : Option String) (mode : String)
      → IsBare r
      → IsWhole (invalid_profile platform tools registry r)
        × IsWhole (record (invalid_profile platform tools registry r) {
          site_profile_id = id;
          render_mode = mode;
        })
  unfolding invalid_profile
  invalid_profile-IsWhole r id mode bare = ground (arith, bare)

  drawn_report-IsWhole :
      (job : CrawlJob) (domains : List String) (p : FetchedPage) (url : String)
      (robots : RobotsSnapshot) (again : ParsedHtml) (id : String) (r : CrawlResult)
      (profile : Option EffectivePreset)
      → IsBare r
      → is_success r.status_code ≡ true
      → r.error_kind ≡ none
      → IsWhole (drawn_report platform tools registry job domains p url robots again id r profile)
  unfolding drawn_report
  drawn_report-IsWhole job domains p url robots again id r none bare s e =
      (invalid_profile-IsWhole r (some id) "browser" bare).1
  drawn_report-IsWhole job domains p url robots again id r (some drawn) bare s e =
      finish_report-IsWhole job domains p url robots again drawn "browser" r bare s e

  render_report-IsWhole :
      (job : CrawlJob) (domains : List String) (p : FetchedPage) (content_type url : String)
      (robots : RobotsSnapshot) (parsed : ParsedHtml) (profile : EffectivePreset) (r : CrawlResult)
      (html : Option String)
      → IsBare r
      → is_success r.status_code ≡ true
      → r.error_kind ≡ none
      → IsWhole (
          render_report platform tools registry job domains p content_type url robots parsed profile
            r html)
  unfolding render_report html_report
  render_report-IsWhole job domains p content_type url robots parsed profile r none bare s e =
      finish_report-IsWhole job domains p url robots parsed profile "static"
        (html_report platform tools registry r p content_type robots parsed) bare s e
  render_report-IsWhole job domains p content_type url robots parsed profile r (some html) bare s
        e =
      let again = tools.parse_html_document url html in
      drawn_report-IsWhole job domains p url robots again profile.id
        (html_report platform tools registry r p content_type robots again)
        (detect platform registry url html) bare s e

  profile_report-IsWhole :
      (job : CrawlJob) (domains : List String) (js_render : Bool) (p : FetchedPage)
      (content_type url : String) (robots : RobotsSnapshot) (parsed : ParsedHtml) (r : CrawlResult)
      (profile : Option EffectivePreset)
      → IsBare r
      → is_success r.status_code ≡ true
      → r.error_kind ≡ none
      → IsWhole (
          profile_report platform tools registry job domains js_render p content_type url robots
            parsed r profile)
  unfolding profile_report html_report
  profile_report-IsWhole job domains js_render p content_type url robots parsed r none bare s e =
      (invalid_profile-IsWhole (html_report platform tools registry r p content_type robots parsed)
        none "" bare).0
  profile_report-IsWhole job domains js_render p content_type url robots parsed r (some profile)
        bare s e =
      let h = html_report platform tools registry r p content_type robots parsed in
      if_elim IsWhole
        (profile.prefer_js || tools.needs_js_rendering p.text (unwrap_or parsed.body ""))
        (λ _.
          if_elim IsWhole (not js_render) (λ _. ground (arith, bare))
            (λ _.
              render_report-IsWhole job domains p content_type url robots parsed profile r
                (tools.render_with_js url) bare s e))
        (λ _. finish_report-IsWhole job domains p url robots parsed profile "static" h bare s e)

  answer_report-IsWhole :
      (job : CrawlJob) (domains : List String) (js_render : Bool) (at : ℕ) (network : String)
      (p : FetchedPage)
      → IsWhole (answer_report platform tools registry job domains js_render at network p)
  unfolding answer_report page_report base_report is_success
  answer_report-IsWhole job domains js_render at network p =
      let url = unwrap_or (normalize_url platform p.url) p.url in
      let robots = tools.final_robots url in
      let content_type = unwrap_or p.content_type "application/octet-stream" in
      let r = page_report platform tools registry job at network p url robots in
      let bare : IsBare r = (refl, refl) in
      if_elim IsWhole (p.status_code == 304) (λ t. refused-IsWhole _ bare (ground (arith, t)))
        (λ _.
          if_elim IsWhole (not (leb 200 p.status_code && ltb p.status_code 300))
            (λ t. refused-IsWhole _ bare (ground (arith, t)))
            (λ t.
              if_elim IsWhole (not (has_text content_type "text/html"))
                (λ _. refused-IsWhole _ bare (ground arith))
                (λ _.
                  profile_report-IsWhole job domains js_render p content_type url robots
                    (tools.parse_html_document url p.text) r (detect platform registry url p.text)
                    bare (ground (arith, t)) refl)))

  fetch_report-IsWhole :
      (job : CrawlJob) (domains : List String) (js_render : Bool) (at : ℕ) (network : String)
      (answer : PageFetch)
      → IsWhole (fetch_report platform tools registry job domains js_render at network answer)
  unfolding fetch_report base_report is_success
  fetch_report-IsWhole job domains js_render at network (page p) =
      answer_report-IsWhole job domains js_render at network p
  fetch_report-IsWhole job domains js_render at network (blocked_by_robots url status) =
      refused-IsWhole _ (refl, refl) refl
  fetch_report-IsWhole job domains js_render at network (too_many_redirects chain) =
      refused-IsWhole _ (refl, refl) refl
  fetch_report-IsWhole job domains js_render at network (request_failed error) =
      refused-IsWhole _ (refl, refl) refl

  -- Every report of a worker, whatever the site answers: it brings in 200 addresses at most; it has a
  -- body only for a page with a status of success that nothing speaks against, and then one with text.
  pub process_job-IsWhole :
      (job : CrawlJob) (domains : List String) (js_render : Bool) (at : ℕ) (network : String)
      → IsWhole (process_job platform tools registry job domains js_render at network)
  unfolding process_job base_report is_success
  process_job-IsWhole job domains js_render at network =
      if_elim IsWhole (not (tools.initial_robots job.url).allowed)
        (λ _. refused-IsWhole _ (refl, refl) refl)
        (λ _. fetch_report-IsWhole job domains js_render at network (tools.fetch_with_retry job))
