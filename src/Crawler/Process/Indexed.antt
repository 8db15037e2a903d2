-- ===== src/Crawler/Process/Indexed.antt =====
-- A report of services/crawler/src/worker.rs on its way through `classify_job_outcome` of
-- services/api/src/crawler.rs.
use find_verse.External.{Platform}
use find_verse.Crawl.Rows.{Job}
use find_verse.Crawl.Outcome.{CrawlResult, JobOutcome, succeeded, is_success, classify_job_outcome}
use find_verse.Crawl.Outcome.Classes.{IsAccepted, classify_job_outcome-IsAccepted}
use find_verse.Crawler.SiteRules.{RuleRegistry}
use find_verse.Crawler.Page.{CrawlJob, Tools, base_report, has_content}
use find_verse.Crawler.Process.{process_job}
use find_verse.Crawler.Process.Reports.{process_job-IsWhole}
use find_verse.Prelude.{ℕ, List, String, Bool, true, not, ◌≡◌, if_elim, arith}

module _ (platform : Platform) (tools : Tools) (registry : RuleRegistry) (job : CrawlJob)
    (domains : List String) (js_render : Bool) (at : ℕ) (network : String) where
  abbrev report : CrawlResult
  report = process_job platform tools registry job domains js_render at network

  -- What is indexed was allowed by robots.txt when its job began, and has a text.
  abbrev pub IsIndexed : JobOutcome → Type 0
  IsIndexed (succeeded d) =
      ((tools.initial_robots job.url).allowed ≡ true) × (has_content report.body ≡ true)
  IsIndexed _ = Unit

  robots_allowed :
      is_success report.status_code ≡ true → (tools.initial_robots job.url).allowed ≡ true
  unfolding process_job base_report is_success
  robots_allowed =
      if_elim
        (λ (r : CrawlResult).
          is_success r.status_code ≡ true → (tools.initial_robots job.url).allowed ≡ true)
        (not (tools.initial_robots job.url).allowed) (λ _ s. ground (arith, s))
        (λ t s. ground (arith, t))

  accepted-IsIndexed : (o : JobOutcome) → IsAccepted report o → IsIndexed o
  accepted-IsIndexed (succeeded d) a = (
    robots_allowed a.0,
    (process_job-IsWhole platform tools registry job domains js_render at network).filled a.0 a.1,
  )
  accepted-IsIndexed _ a = tt

  -- Whatever a site answers: when the API makes a success of a worker's report, robots.txt allowed the
  -- address when the job began, and the report has a body with text.
  pub process_job-IsIndexed :
      (clock : ℕ) (row : Job) → IsIndexed (classify_job_outcome platform clock report row)
  process_job-IsIndexed clock row =
      accepted-IsIndexed (classify_job_outcome platform clock report row)
        (classify_job_outcome-IsAccepted platform clock report row)
