-- ===== src/Crawler/Process/Vouched.antt =====
-- What has to be so for a report of `process_job` in services/crawler/src/worker.rs to have a body.
use find_verse.External.{Platform}
use find_verse.Common.Address.{normalize_url}
use find_verse.Crawler.RobotsTags.{merge, parse_x_robots_tag_values}
use find_verse.Crawler.SiteRules.{EffectivePreset, RuleRegistry, filtered_reason, detect}
use find_verse.Crawler.Page.{FetchedPage, PageFetch, page, Tools}
use find_verse.Prelude.{String, Option, none, some, false, ◌≡◌, unwrap_or}

module _ (platform : Platform) (tools : Tools) (registry : RuleRegistry) where
  -- The body is that of a page, as it was sent or as a browser drew it, whose site's rules let it pass
  -- and that does not ask to be left out of the index, in its headers or in its text.
  pub record IsVouched (p : FetchedPage) (url : String) (body : Option String) : Type 0 where
    pub html : String
    pub profile : EffectivePreset
    pub detected : detect platform registry url html ≡ some profile
    pub unfiltered : filtered_reason platform profile url ≡ none
    pub indexed :
        (merge
          (parse_x_robots_tag_values p.x_robots_tags)
          (tools.parse_html_document url html).robots_directives).noindex
        ≡ false
    pub same : body ≡ (tools.parse_html_document url html).body

  -- What is said of the body of a report, where it has one.
  abbrev pub BodyFits : FetchedPage → String → Option String → Type 0
  BodyFits p url none = Unit
  BodyFits p url (some body) = IsVouched p url (some body)

  -- The body of a report is that of a page that the site sent.
  abbrev pub FetchFits : PageFetch → Option String → Type 0
  FetchFits (page p) body = BodyFits p (unwrap_or (normalize_url platform p.url) p.url) body
  FetchFits _ body = body ≡ none
