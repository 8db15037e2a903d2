-- ===== src/Examples/Reports.antt =====
-- The theorems on reports, applied.
use find_verse.Common.Scope.{from_db_value, follows, url_matches_domain_list}
use find_verse.Common.Terms.{derive_terms}
use find_verse.Common.Terms.Bounds.{derive_terms_bound}
use find_verse.Common.Error.{internal}
use find_verse.Crawl.Frontier.{claim_jobs}
use find_verse.Crawl.Outcome.{classify_job_outcome}
use find_verse.Crawl.Outcome.Classes.{IsAccepted, classify_job_outcome-IsAccepted}
use find_verse.Crawl.Ingest.{stage_report}
use find_verse.Crawl.Lifecycle.Isolation.{foreign, stage_report-foreign}
use find_verse.Crawl.Apply.{
  page_is_blacklisted, scoped_urls, apply_succeeded, mark_projection_failure,
}
use find_verse.Crawl.Apply.Origins.{
  extra_backoff_secs, wait_secs, origin_ready_at, update_origin_after_report,
}
use find_verse.Crawl.Apply.Polite.{claim_jobs-update_origin_after_report}
use find_verse.Crawl.Apply.Links.{scoped_urls_lem}
use find_verse.Crawl.Apply.Stranded.{has_succeeded, apply_succeeded-refused}
use find_verse.Examples.Data.{
  sample_platform, open_index, shut_index, tally_id, two_jobs, held_job, mixed_jobs, host_origin,
  db_of, ok_report, page_item, page,
}
use find_verse.Prelude.{
  ◌≤◌, ◌∷◌, [], none, some, true, false, ◌≡◌, refl, length, str_eq, All, Elem, IsAscending, arith,
}

claim_jobs-update_origin_after_report_example :
    All
      (λ c. str_eq c.job.origin "https://host" ≡ false)
      (claim_jobs "owner" "crawler" "lease" 5 false 10
        (update_origin_after_report "owner" "https://host" none ok_report 5 (host_origin ∷ []))
        two_jobs).2
unfolding origin_ready_at wait_secs extra_backoff_secs
claim_jobs-update_origin_after_report_example =
    claim_jobs-update_origin_after_report "owner" "https://host" none ok_report 5 (host_origin ∷ [])
      "crawler" "lease" 5 false 10 two_jobs (omega arith)

classify_job_outcome-IsAccepted_example :
    IsAccepted ok_report (classify_job_outcome sample_platform 5 ok_report held_job)
classify_job_outcome-IsAccepted_example =
    classify_job_outcome-IsAccepted sample_platform 5 ok_report held_job

scoped_urls_lem_example :
    let urls =
      scoped_urls sample_platform open_index tally_id 5 5 ("host" ∷ []) held_job ok_report in
    All
      (λ u.
        (url_matches_domain_list sample_platform u ("host" ∷ []) ≡ false)
        × (follows sample_platform (from_db_value "any") none u ≡ true)
        × Elem u ok_report.discovered_urls)
      urls
    × (length urls ≤ 2)
    × (page_is_blacklisted sample_platform open_index tally_id 5 5 ("host" ∷ []) ok_report ≡ true
        → urls ≡ [])
scoped_urls_lem_example =
    scoped_urls_lem sample_platform open_index tally_id 5 5 ("host" ∷ []) held_job ok_report

apply_succeeded-refused_example :
    let out =
      apply_succeeded sample_platform shut_index tally_id 5 5 page_item held_job ok_report [] page
        (db_of mixed_jobs) in
    (out.1 ≡ some (internal "index"))
    × (has_succeeded ok_report.job_id out.0.jobs ≡ true)
    × (mark_projection_failure page_item "index" 6 out.0 ≡ out.0)
apply_succeeded-refused_example =
    apply_succeeded-refused sample_platform shut_index tally_id 5 5 page_item held_job ok_report []
      page (db_of mixed_jobs) "index" 6 refl refl refl

derive_terms_bound_example :
    (length (derive_terms sample_platform "A title of words" "and a body") ≤ 12)
    × IsAscending (derive_terms sample_platform "A title of words" "and a body")
derive_terms_bound_example = derive_terms_bound sample_platform "A title of words" "and a body"

stage_report-foreign_example :
    foreign "owner" "crawler" "lease"
      (stage_report
        (λ r. some "blob")
        "owner"
        "crawler"
        "lease"
        5
        tally_id
        (ok_report ∷ [])
        (db_of mixed_jobs)).0.jobs
    ≡ foreign "owner" "crawler" "lease" mixed_jobs
stage_report-foreign_example =
    stage_report-foreign (λ r. some "blob") "owner" "crawler" "lease" 5 tally_id (ok_report ∷ [])
      (db_of mixed_jobs)
