-- ===== src/Crawl/Lifecycle/Isolation.antt =====
-- A report reaches the jobs of its own lease alone (services/api/src/crawl/ingest.rs and
-- services/api/src/crawl/frontier.rs).
use find_verse.Crawl.Rows.{Job, holds, ingesting}
use find_verse.Crawl.Frontier.{owned, accepts, accept_report}
use find_verse.Crawl.Outcome.{CrawlResult}
use find_verse.Crawl.Store.{Db, Outcome, and_then}
use find_verse.Crawl.Ingest.{accept_staged, stage_report}
use find_verse.Crawl.Lifecycle.Operations.{stage_loop-jobs}
use find_verse.Prelude.{
  ℕ, List, map, String, Option, none, some, not, ◌&&◌, ◌≡◌, refl, ap, ◌∙◌, is_empty, select_where,
  select_where-update_where_apart, if_elim, arith,
}

-- The jobs that this crawler does not hold under this lease.
abbrev pub foreign : String → String → String → List Job → List Job
foreign owner crawler_id lease jobs =
    select_where
      (λ j. not (owned owner j && holds j.claimed_by crawler_id && holds j.lease_id lease)) jobs

accept_report-foreign :
    (owner crawler_id lease : String) (ids : List String) (jobs : List Job)
    → foreign owner crawler_id lease (accept_report owner crawler_id lease ids jobs)
      ≡ foreign owner crawler_id lease jobs
unfolding accept_report
accept_report-foreign owner crawler_id lease ids jobs =
    if_elim
      (λ (js : List Job). foreign owner crawler_id lease js ≡ foreign owner crawler_id lease jobs)
      (is_empty ids) (λ _. refl)
      (λ _.
        select_where-update_where_apart
          (λ j. not (owned owner j && holds j.claimed_by crawler_id && holds j.lease_id lease))
          (accepts owner crawler_id lease ids) (λ j. record j { status = ingesting })
          (λ j t. (ground arith, ground arith)) jobs)

and_then-foreign :
    (owner crawler_id lease : String) (o : Outcome) (rest : Db → Db) (jobs : List Job)
    → o.0.jobs ≡ jobs
    → ((db : Db)
        → foreign owner crawler_id lease (rest db).jobs ≡ foreign owner crawler_id lease db.jobs)
    → foreign owner crawler_id lease (and_then o (λ db. (rest db, none))).0.jobs
      ≡ foreign owner crawler_id lease jobs
and_then-foreign owner crawler_id lease (db, none) rest jobs e k =
    k db ∙ ap (foreign owner crawler_id lease) e
and_then-foreign owner crawler_id lease (db, some error) rest jobs e k =
    ap (foreign owner crawler_id lease) e

-- Whatever a crawler reports under a lease, accepted or refused, the jobs that it does not hold under
-- that lease stay as they are.
pub stage_report-foreign :
    (write_result : CrawlResult → Option String) (owner crawler_id lease : String) (now : ℕ)
    (new_id : ℕ → String) (results : List CrawlResult) (db : Db)
    → foreign owner crawler_id lease
        (stage_report write_result owner crawler_id lease now new_id results db).0.jobs
      ≡ foreign owner crawler_id lease db.jobs
unfolding stage_report accept_staged
stage_report-foreign write_result owner crawler_id lease now new_id results db =
    and_then-foreign owner crawler_id lease _ _ db.jobs
      (stage_loop-jobs write_result owner crawler_id lease now new_id 0 results _ db.jobs refl)
      (λ db'. accept_report-foreign owner crawler_id lease (map (λ r. r.job_id) results) db'.jobs)
