-- ===== src/Crawl/Lifecycle/Operations.antt =====
-- The scheduler's, the owner's and the projector's operations keep `crawl_jobs` sound.
use find_verse.Crawl.Rows.{Job, Item}
use find_verse.Crawl.Outcome.{CrawlResult}
use find_verse.Crawl.Store.{Db, Rule, Outcome, and_then, push_event}
use find_verse.Crawl.Ingest.{
  stage_one, stage_loop, accept_staged, stage_report, refresh_batch_status, mark_item_completed,
  mark_item_failed, claim_pending_items,
}
use find_verse.Crawl.Ingest.Recovery.{
  recovery_events, recover_stale_ingests, is_replayed, is_lost, recover_stale_items, refresh_all,
  touched_leases, drop_items, replay_items,
}
use find_verse.Crawl.Maintenance.{
  is_late_claim, is_late_ingest, take_back_events, ingest_events, requeue_rows, recover_rows,
  claim_timeout_message, deleted_message, requeue_stale_jobs, recover_stale_ingesting_jobs,
  claimed_from, release_claimed_jobs_for_deleted_crawler,
}
use find_verse.Crawl.Admin.{
  retry_job, can_retry, retry_failed_jobs, is_completed_of, cleanup_completed_jobs, is_failed_of,
  cleanup_failed_jobs, is_unfinished_of, stop_all_jobs, enabled_rule,
}
use find_verse.Common.Error.{ApiError}
use find_verse.Crawl.Apply.{SearchIndex}
use find_verse.Crawl.Maintenance.Blacklist.{
  HostSql, is_removed, remove_domain, cleanup_domains, cleanup_blacklisted_domains,
}
use find_verse.Crawl.Lifecycle.{
  take_back-IsConsistent, take_back_ingest-IsConsistent, retry_by_hand-IsConsistent,
}
use find_verse.External.{Platform}
use find_verse.Crawl.Enqueue.{enqueue_urls}
use find_verse.Crawl.Rules.{rule_request, note_rule, apply_rule}
use find_verse.Crawl.Lifecycle.Keys.{
  IsFresh, take_back-Keeps, take_back_ingest-Keeps, retry_by_hand-Keeps,
}
use find_verse.Crawl.Lifecycle.Sound.{
  IsSound, IsSound-update_where, IsSound-delete_where, accept_report-IsSound, enqueue_urls-IsSound,
}
use find_verse.Prelude.{
  ℕ, max, ◌+◌, List, [], ◌∷◌, map, String, Bool, not, Option, none, some, ◌≡◌, refl, sym, ◌∙◌, suc,
  subst, select_where, count_where, ltb, ◌||◌, arith, if_elim,
}

-- The events leave the jobs alone.
take_back_events-jobs :
    (dead alive alive_status : String) (js : List Job) (db : Db)
    → (take_back_events dead alive alive_status js db).jobs ≡ db.jobs
unfolding take_back_events push_event
take_back_events-jobs dead alive alive_status [] db = refl
take_back_events-jobs dead alive alive_status (j ∷ js) db =
    take_back_events-jobs dead alive alive_status js _

ingest_events-jobs : (js : List Job) (db : Db) → (ingest_events js db).jobs ≡ db.jobs
unfolding ingest_events push_event
ingest_events-jobs [] db = refl
ingest_events-jobs (j ∷ js) db = ingest_events-jobs js _

pub requeue_stale_jobs-IsSound :
    (now timeout : ℕ) (db : Db) → IsSound db.jobs → IsSound (requeue_stale_jobs now timeout db).jobs
unfolding requeue_stale_jobs requeue_rows
requeue_stale_jobs-IsSound now timeout db s =
    subst IsSound
      (sym (
        take_back_events-jobs "stale-job-dead-lettered" "stale-job-requeued" "ok"
          (select_where (is_late_claim now timeout) db.jobs) (requeue_rows now timeout db)))
      (IsSound-update_where (is_late_claim now timeout) _
        (take_back-Keeps now (now + 30) "claim_timeout" claim_timeout_message)
        (λ j _ _. take_back-IsConsistent now (now + 30) "claim_timeout" claim_timeout_message j)
        db.jobs s)

pub recover_stale_ingesting_jobs-IsSound :
    (now timeout : ℕ) (db : Db)
    → IsSound db.jobs
    → IsSound (recover_stale_ingesting_jobs now timeout db).jobs
unfolding recover_stale_ingesting_jobs recover_rows
recover_stale_ingesting_jobs-IsSound now timeout db s =
    subst IsSound
      (sym (
        ingest_events-jobs (select_where (is_late_ingest now timeout) db.jobs)
          (recover_rows now timeout db)))
      (IsSound-update_where (is_late_ingest now timeout) _ (take_back_ingest-Keeps now (now + 30))
        (λ j _ _. take_back_ingest-IsConsistent now (now + 30) j) db.jobs s)

pub release-IsSound :
    (owner crawler_id : String) (now : ℕ) (db : Db)
    → IsSound db.jobs
    → IsSound (release_claimed_jobs_for_deleted_crawler owner crawler_id now db).0.jobs
unfolding release_claimed_jobs_for_deleted_crawler
release-IsSound owner crawler_id now db s =
    IsSound-update_where (claimed_from owner crawler_id) _
      (take_back-Keeps now (now + 30) "crawler_deleted" deleted_message)
      (λ j _ _. take_back-IsConsistent now (now + 30) "crawler_deleted" deleted_message j) db.jobs s

pub retry_failed_jobs-IsSound :
    (owner : String) (db : Db) → IsSound db.jobs → IsSound (retry_failed_jobs owner db).0.jobs
unfolding retry_failed_jobs push_event
retry_failed_jobs-IsSound owner db s =
    let kept =
      IsSound-update_where (can_retry owner) retry_job retry_by_hand-Keeps
        (λ j _ _. retry_by_hand-IsConsistent j) db.jobs s in
    if_elim (λ (d : Db). IsSound d.jobs) (ltb 0 (count_where (can_retry owner) db.jobs)) (λ _. kept)
      (λ _. kept)

pub cleanup_completed_jobs-IsSound :
    (owner : String) (db : Db) → IsSound db.jobs → IsSound (cleanup_completed_jobs owner db).0.jobs
unfolding cleanup_completed_jobs push_event
cleanup_completed_jobs-IsSound owner db s =
    let kept = IsSound-delete_where (is_completed_of owner) db.jobs s in
    if_elim (λ (d : Db). IsSound d.jobs) (ltb 0 (count_where (is_completed_of owner) db.jobs))
      (λ _. kept) (λ _. kept)

pub cleanup_failed_jobs-IsSound :
    (owner : String) (db : Db) → IsSound db.jobs → IsSound (cleanup_failed_jobs owner db).0.jobs
unfolding cleanup_failed_jobs push_event
cleanup_failed_jobs-IsSound owner db s =
    let kept = IsSound-delete_where (is_failed_of owner) db.jobs s in
    if_elim (λ (d : Db). IsSound d.jobs) (ltb 0 (count_where (is_failed_of owner) db.jobs))
      (λ _. kept) (λ _. kept)

cleanup_domains-IsSound :
    (sql : HostSql) (index : SearchIndex) (indexed : Bool) (domains : List String) (db : Db)
    → IsSound db.jobs
    → IsSound (cleanup_domains sql index indexed domains db).0.jobs
unfolding cleanup_domains remove_domain
cleanup_domains-IsSound sql index indexed [] db s = s
cleanup_domains-IsSound sql index indexed (domain ∷ domains) db s =
    let kept = IsSound-delete_where (is_removed sql index domain) db.jobs s in
    let purged = index.purge_site domain db.documents in
    if_elim (λ (o : Outcome). IsSound o.0.jobs) (not indexed)
      (λ _. cleanup_domains-IsSound sql index indexed domains _ kept)
      (λ _.
        elim (purged.1)
          as (λ (e : Option ApiError).
            IsSound
              (elim e as (λ (_ : Option ApiError). Outcome) [
                | none ↦
                    cleanup_domains sql index indexed domains
                      (remove_domain sql index domain (record db { documents = purged.0 }))
                | some error ↦ (record db { documents = purged.0 }, some error)
              ]).0.jobs) [
                | none ↦ cleanup_domains-IsSound sql index indexed domains _ kept
                | some error ↦ s
              ])

pub cleanup_blacklisted_domains-IsSound :
    (sql : HostSql) (index : SearchIndex) (indexed : Bool) (db : Db)
    → IsSound db.jobs
    → IsSound (cleanup_blacklisted_domains sql index indexed db).0.jobs
unfolding cleanup_blacklisted_domains
cleanup_blacklisted_domains-IsSound sql index indexed db s =
    cleanup_domains-IsSound sql index indexed db.blacklist db s

pub stop_all_jobs-IsSound :
    (owner : String) (now : ℕ) (db : Db)
    → IsSound db.jobs
    → IsSound (stop_all_jobs owner now db).0.jobs
unfolding stop_all_jobs push_event
stop_all_jobs-IsSound owner now db s =
    let kept = IsSound-delete_where (is_unfinished_of owner) db.jobs s in
    if_elim (λ (d : Db). IsSound d.jobs)
      (ltb 0 (count_where (enabled_rule owner) db.rules)
        || ltb 0 (count_where (is_unfinished_of owner) db.jobs))
      (λ _. kept) (λ _. kept)

-- The seed of a rule enters the frontier like any other address.
pub apply_rule-IsSound :
    (platform : Platform) (now : ℕ) (budget_id : String) (new_id : ℕ → String) (rule : Rule)
    (db : Db)
    → IsFresh new_id db.jobs
    → IsSound db.jobs
    → IsSound (apply_rule platform now budget_id new_id rule db).jobs
unfolding apply_rule note_rule push_event
apply_rule-IsSound platform now budget_id new_id rule db fresh s =
    let request = rule_request budget_id rule in
    let kept =
      enqueue_urls-IsSound platform db.blacklist request now new_id db.origins db.jobs fresh s in
    let q = enqueue_urls platform db.blacklist request now new_id db.origins db.jobs in
    if_elim (λ (d : Db). IsSound d.jobs) (ltb 0 q.accepted) (λ _. kept) (λ _. kept)

module _ (write_result : CrawlResult → Option String) (owner crawler_id lease : String)
    (now : ℕ) where
  -- Staging writes no job before the report is accepted.
  stage_one-jobs :
      (item_id : String) (r : CrawlResult) (db : Db)
      → (stage_one write_result owner crawler_id lease now item_id r db).0.jobs ≡ db.jobs
  unfolding stage_one
  stage_one-jobs item_id r db = ground arith

  pub and_then-jobs :
      (o : Outcome) (rest : Db → Outcome) (jobs : List Job)
      → o.0.jobs ≡ jobs
      → ((db : Db) → db.jobs ≡ jobs → (rest db).0.jobs ≡ jobs)
      → (and_then o rest).0.jobs ≡ jobs
  and_then-jobs (db, none) rest jobs e k = k db e
  and_then-jobs (db, some error) rest jobs e k = e

  pub stage_loop-jobs :
      (new_id : ℕ → String) (n : ℕ) (rs : List CrawlResult) (db : Db) (jobs : List Job)
      → db.jobs ≡ jobs
      → (stage_loop write_result owner crawler_id lease now new_id n rs db).0.jobs ≡ jobs
  unfolding stage_loop
  stage_loop-jobs new_id n [] db jobs e = e
  stage_loop-jobs new_id n (r ∷ rs) db jobs e =
      and_then-jobs (stage_one write_result owner crawler_id lease now (new_id n) r db) _ jobs
        (stage_one-jobs (new_id n) r db ∙ e)
        (λ db' e'. stage_loop-jobs new_id (suc n) rs db' jobs e')

  and_then-IsSound :
      (o : Outcome) (rest : Db → Outcome)
      → IsSound o.0.jobs
      → ((db : Db) → IsSound db.jobs → IsSound (rest db).0.jobs)
      → IsSound (and_then o rest).0.jobs
  and_then-IsSound (db, none) rest s k = k db s
  and_then-IsSound (db, some error) rest s k = s

  -- A report that is refused in the middle leaves the jobs as they were.
  pub stage_report-IsSound :
      (new_id : ℕ → String) (results : List CrawlResult) (db : Db)
      → IsSound db.jobs
      → IsSound (stage_report write_result owner crawler_id lease now new_id results db).0.jobs
  unfolding stage_report accept_staged
  stage_report-IsSound new_id results db s =
      and_then-IsSound _ _ (subst IsSound (sym (stage_loop-jobs new_id 0 results _ db.jobs refl)) s)
        (λ db' s'.
          accept_report-IsSound owner crawler_id lease (map (λ r. r.job_id) results) db'.jobs s')

refresh_all-jobs :
    (leases : List String) (now : ℕ) (db : Db) → (refresh_all leases now db).jobs ≡ db.jobs
unfolding refresh_all refresh_batch_status
refresh_all-jobs [] now db = refl
refresh_all-jobs (l ∷ ls) now db = refresh_all-jobs ls now _

-- The bookkeeping of the ingest items leaves the jobs alone.
recover_stale_items-jobs :
    (now timeout : ℕ) (db : Db) → (recover_stale_items now timeout db).jobs ≡ db.jobs
unfolding recover_stale_items
recover_stale_items-jobs now timeout db =
    refresh_all-jobs (touched_leases now (max timeout 1) db) now (record db {
      items =
          drop_items now (max timeout 1) db.jobs
            (replay_items now (max timeout 1) db.jobs db.items);
    })

pub mark_item_completed-jobs :
    (item : Item) (now : ℕ) (db : Db) → (mark_item_completed item now db).jobs ≡ db.jobs
unfolding mark_item_completed refresh_batch_status
mark_item_completed-jobs item now db = refl

pub mark_item_failed-jobs :
    (item : Item) (message : String) (now : ℕ) (db : Db)
    → (mark_item_failed item message now db).jobs ≡ db.jobs
unfolding mark_item_failed refresh_batch_status
mark_item_failed-jobs item message now db = refl

pub claim_pending_items-jobs :
    (limit now : ℕ) (db : Db) → (claim_pending_items limit now db).0.jobs ≡ db.jobs
unfolding claim_pending_items
claim_pending_items-jobs limit now db = refl

recovery_events-jobs :
    (event_type status : String) (jobs : List Job) (items : List Item) (db : Db)
    → (recovery_events event_type status jobs items db).jobs ≡ db.jobs
unfolding recovery_events push_event
recovery_events-jobs event_type status jobs [] db = refl
recovery_events-jobs event_type status jobs (i ∷ items) db =
    recovery_events-jobs event_type status jobs items _

pub recover_stale_ingests-jobs :
    (now timeout : ℕ) (db : Db) → (recover_stale_ingests now timeout db).jobs ≡ db.jobs
unfolding recover_stale_ingests
recover_stale_ingests-jobs now timeout db =
    let requeued = select_where (is_replayed now (max timeout 1) db.jobs) db.items in
    let lost =
      select_where (is_lost now (max timeout 1) db.jobs)
        (replay_items now (max timeout 1) db.jobs db.items) in
    let recovered = recover_stale_items now timeout db in
    recovery_events-jobs "stale-ingest-failed" "error" db.jobs lost
      (recovery_events "stale-ingest-requeued" "ok" db.jobs requeued recovered)
    ∙ recovery_events-jobs "stale-ingest-requeued" "ok" db.jobs requeued recovered
    ∙ recover_stale_items-jobs now timeout db
