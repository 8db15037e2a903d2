-- ===== src/Crawl/Lifecycle/Reach.antt =====
-- The life of the whole queue: the operations of services/api/src/crawler.rs,
-- services/api/src/crawl/frontier.rs and services/api/src/crawl/ingest.rs, in any order.
use find_verse.External.{Platform}
use find_verse.Crawl.Rows.{Item}
use find_verse.Crawl.Frontier.{claim_jobs}
use find_verse.Crawl.Outcome.{CrawlResult}
use find_verse.Crawl.Store.{Db, Rule}
use find_verse.Crawl.Rules.{apply_rule}
use find_verse.Crawl.Enqueue.{EnqueueRequest, enqueue_urls}
use find_verse.Crawl.Ingest.{
  stage_report, claim_pending_items, mark_item_completed, mark_item_failed,
}
use find_verse.Crawl.Ingest.Recovery.{recover_stale_ingests}
use find_verse.Crawl.Apply.{SearchIndex, apply_staged_result, mark_projection_failure}
use find_verse.Crawl.Maintenance.{
  requeue_stale_jobs, recover_stale_ingesting_jobs, release_claimed_jobs_for_deleted_crawler,
}
use find_verse.Crawl.Maintenance.Blacklist.{HostSql, cleanup_blacklisted_domains}
use find_verse.Crawl.Admin.{
  retry_failed_jobs, cleanup_completed_jobs, cleanup_failed_jobs, stop_all_jobs,
}
use find_verse.Crawl.Lifecycle.Keys.{IsFresh}
use find_verse.Crawl.Lifecycle.Sound.{IsSound, claim_jobs-IsSound, enqueue_urls-IsSound}
use find_verse.Crawl.Lifecycle.Reports.{
  apply_staged_result-IsSound, mark_projection_failure-IsSound,
}
use find_verse.Crawl.Lifecycle.Operations.{
  requeue_stale_jobs-IsSound, recover_stale_ingesting_jobs-IsSound, release-IsSound,
  retry_failed_jobs-IsSound, cleanup_completed_jobs-IsSound, cleanup_failed_jobs-IsSound,
  stop_all_jobs-IsSound, stage_report-IsSound, apply_rule-IsSound, recover_stale_ingests-jobs,
  claim_pending_items-jobs, mark_item_completed-jobs, mark_item_failed-jobs,
  cleanup_blacklisted_domains-IsSound,
}
use find_verse.Prelude.{ℕ, List, String, Option, Bool, sym, subst}

-- The tables after a claim.
abbrev pub claim : String → String → String → ℕ → Bool → ℕ → Db → Db
claim owner crawler_id lease_id max_jobs has_js now db =
    let (jobs, origins, rows) =
      claim_jobs owner crawler_id lease_id max_jobs has_js now db.origins db.jobs in
    record db { jobs = jobs; origins = origins }

-- The tables after addresses were offered to the frontier.
abbrev pub enqueue : Platform → EnqueueRequest → ℕ → (ℕ → String) → Db → Db
enqueue platform r now new_id db =
    let q = enqueue_urls platform db.blacklist r now new_id db.origins db.jobs in
    record db { jobs = q.jobs; origins = q.origins }

-- One operation. What brings in jobs draws ids that no job has yet.
pub data Step (platform : Platform) (index : SearchIndex) : Db → Db → Type 0 where
  enqueued :
      (r : EnqueueRequest) (now : ℕ) (new_id : ℕ → String) (db : Db)
      → IsFresh new_id db.jobs
      → Step platform index db (enqueue platform r now new_id db)
  rule_applied :
      (now : ℕ) (budget_id : String) (new_id : ℕ → String) (rule : Rule) (db : Db)
      → IsFresh new_id db.jobs
      → Step platform index db (apply_rule platform now budget_id new_id rule db)
  claimed :
      (owner crawler_id lease_id : String) (max_jobs : ℕ) (has_js : Bool) (now : ℕ) (db : Db)
      → Step platform index db (claim owner crawler_id lease_id max_jobs has_js now db)
  staged :
      (write_result : CrawlResult → Option String) (owner crawler_id lease : String) (now : ℕ)
      (new_id : ℕ → String) (results : List CrawlResult) (db : Db)
      → Step platform index db
          (stage_report write_result owner crawler_id lease now new_id results db).0
  handed_out :
      (limit now : ℕ) (db : Db) → Step platform index db (claim_pending_items limit now db).0
  applied :
      (new_id : ℕ → String) (now clock : ℕ) (item : Item) (r : CrawlResult) (db : Db)
      → IsFresh new_id db.jobs
      → Step platform index db (apply_staged_result platform index new_id now clock item r db).0
  projection_failed :
      (item : Item) (message : String) (now : ℕ) (db : Db)
      → Step platform index db (mark_projection_failure item message now db)
  item_completed :
      (item : Item) (now : ℕ) (db : Db) → Step platform index db (mark_item_completed item now db)
  item_failed :
      (item : Item) (message : String) (now : ℕ) (db : Db)
      → Step platform index db (mark_item_failed item message now db)
  items_recovered :
      (now timeout : ℕ) (db : Db) → Step platform index db (recover_stale_ingests now timeout db)
  requeued :
      (now timeout : ℕ) (db : Db) → Step platform index db (requeue_stale_jobs now timeout db)
  ingests_recovered :
      (now timeout : ℕ) (db : Db)
      → Step platform index db (recover_stale_ingesting_jobs now timeout db)
  crawler_deleted :
      (owner crawler_id : String) (now : ℕ) (db : Db)
      → Step platform index db (release_claimed_jobs_for_deleted_crawler owner crawler_id now db).0
  retried : (owner : String) (db : Db) → Step platform index db (retry_failed_jobs owner db).0
  completed_cleaned :
      (owner : String) (db : Db) → Step platform index db (cleanup_completed_jobs owner db).0
  failed_cleaned :
      (owner : String) (db : Db) → Step platform index db (cleanup_failed_jobs owner db).0
  stopped :
      (owner : String) (now : ℕ) (db : Db) → Step platform index db (stop_all_jobs owner now db).0
  blacklist_cleaned :
      (sql : HostSql) (indexed : Bool) (db : Db)
      → Step platform index db (cleanup_blacklisted_domains sql index indexed db).0

module _ (platform : Platform) (index : SearchIndex) where
  Step-IsSound : {db db' : Db} → Step platform index db db' → IsSound db.jobs → IsSound db'.jobs
  Step-IsSound (enqueued r now new_id db fresh) s =
      enqueue_urls-IsSound platform db.blacklist r now new_id db.origins db.jobs fresh s
  Step-IsSound (rule_applied now budget_id new_id rule db fresh) s =
      apply_rule-IsSound platform now budget_id new_id rule db fresh s
  Step-IsSound (claimed owner crawler_id lease_id max_jobs has_js now db) s =
      claim_jobs-IsSound owner crawler_id lease_id max_jobs has_js now db.origins db.jobs s
  Step-IsSound (staged write_result owner crawler_id lease now new_id results db) s =
      stage_report-IsSound write_result owner crawler_id lease now new_id results db s
  Step-IsSound (handed_out limit now db) s =
      subst IsSound (sym (claim_pending_items-jobs limit now db)) s
  Step-IsSound (applied new_id now clock item r db fresh) s =
      apply_staged_result-IsSound platform index new_id now clock item r db fresh s
  Step-IsSound (projection_failed item message now db) s =
      mark_projection_failure-IsSound item message now db s
  Step-IsSound (item_completed item now db) s =
      subst IsSound (sym (mark_item_completed-jobs item now db)) s
  Step-IsSound (item_failed item message now db) s =
      subst IsSound (sym (mark_item_failed-jobs item message now db)) s
  Step-IsSound (items_recovered now timeout db) s =
      subst IsSound (sym (recover_stale_ingests-jobs now timeout db)) s
  Step-IsSound (requeued now timeout db) s = requeue_stale_jobs-IsSound now timeout db s
  Step-IsSound (ingests_recovered now timeout db) s =
      recover_stale_ingesting_jobs-IsSound now timeout db s
  Step-IsSound (crawler_deleted owner crawler_id now db) s =
      release-IsSound owner crawler_id now db s
  Step-IsSound (retried owner db) s = retry_failed_jobs-IsSound owner db s
  Step-IsSound (completed_cleaned owner db) s = cleanup_completed_jobs-IsSound owner db s
  Step-IsSound (failed_cleaned owner db) s = cleanup_failed_jobs-IsSound owner db s
  Step-IsSound (stopped owner now db) s = stop_all_jobs-IsSound owner now db s
  Step-IsSound (blacklist_cleaned sql indexed db) s =
      cleanup_blacklisted_domains-IsSound sql index indexed db s

-- Any number of operations, one after the other.
infixr 5 ◌followed_by◌
pub data Reach (platform : Platform) (index : SearchIndex) : Db → Db → Type 0 where
  here : (db : Db) → Reach platform index db db
  ◌followed_by◌ :
      {db db' db'' : Db}
      → Step platform index db db'
      → Reach platform index db' db''
      → Reach platform index db db''

-- Whatever operations run on a queue, in whatever order: where every row was consistent (a queued
-- job has no holder, a held one has a holder and a lease, a closed one has an end), the ids were
-- distinct and each owner had an address at most once, the same holds afterwards.
pub Reach-IsSound :
    (platform : Platform) (index : SearchIndex) (db db' : Db)
    → Reach platform index db db'
    → IsSound db.jobs
    → IsSound db'.jobs
Reach-IsSound platform index db db' (here _) s = s
Reach-IsSound platform index db db' (step followed_by rest) s =
    Reach-IsSound platform index _ db' rest (Step-IsSound platform index step s)
