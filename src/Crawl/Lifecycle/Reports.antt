-- ===== src/Crawl/Lifecycle/Reports.antt =====
-- Applying a report keeps `crawl_jobs` sound, whatever the outcome (services/api/src/crawler.rs).
use find_verse.External.{Platform}
use find_verse.Crawl.Rows.{Job, Item, Status}
use find_verse.Crawl.Outcome.{
  CrawlResult, Document, JobOutcome, succeeded, filtered, retryable, requires_js_render, blocked,
  failed, dead_letter, gone,
}
use find_verse.Crawl.Store.{Db, Outcome, push_event}
use find_verse.Crawl.Apply.{
  SearchIndex, by_id, write_job, link_edges, written_page, indexed_page, follow_request,
  follow_links, scoped_urls, decide_outcome, apply_succeeded, apply_filtered, apply_retryable,
  apply_requires_js, apply_blocked, apply_failed, apply_dead_letter, apply_gone, apply_outcome,
  finish_report, apply_staged_result, mark_projection_failure,
}
use find_verse.Crawl.Apply.Rows.{awaits, in_flight, succeed_job, filter_job, fail_projection}
use find_verse.Crawl.Lifecycle.{
  IsConsistent, succeed_job-IsConsistent, filter_job-IsConsistent, retry_job-IsConsistent,
  render_job-IsConsistent, close_job-IsConsistent, fail_projection-IsConsistent,
}
use find_verse.Crawl.Lifecycle.Keys.{
  Keeps, IsFresh, IsFresh-update_where, succeed_job-Keeps, filter_job-Keeps, retry_job-Keeps,
  render_job-Keeps, close_job-Keeps, fail_projection-Keeps,
}
use find_verse.Crawl.Lifecycle.Sound.{IsSound, IsSound-update_where, enqueue_urls-IsSound}
use find_verse.Prelude.{
  Bool, true, false, ℕ, List, String, none, some, refl, length, ltb, if_elim, Option-cases, inl,
  inr, str_eq,
}

write_job-IsSound :
    (r : CrawlResult) (f : Job → Job) (db : Db)
    → Keeps f
    → ((j : Job) → IsConsistent (f j))
    → IsSound db.jobs
    → IsSound (write_job r f db).jobs
write_job-IsSound r f db keeps fits s =
    IsSound-update_where (by_id r.job_id) f keeps (λ j _ _. fits j) db.jobs s

indexed_page-IsSound :
    (item : Item) (r : CrawlResult) (o : List Document × Bool) (db : Db)
    → IsSound db.jobs
    → IsSound (indexed_page item r o db).0.jobs
unfolding indexed_page push_event
indexed_page-IsSound item r (documents, false) db s = s
indexed_page-IsSound item r (documents, true) db s = s

module _ (platform : Platform) (index : SearchIndex) (new_id : ℕ → String) (now clock : ℕ) where
  follow_links-IsSound :
      (item : Item) (job : Job) (r : CrawlResult) (urls : List String) (db : Db)
      → IsFresh new_id db.jobs
      → IsSound db.jobs
      → IsSound (follow_links platform index new_id now clock item job r urls db).jobs
  unfolding follow_links
  follow_links-IsSound item job r urls db fresh s =
      if_elim (λ (d : Db). IsSound d.jobs) (ltb job.depth job.max_depth)
        (λ _.
          enqueue_urls-IsSound platform db.blacklist
            (follow_request platform index new_id now clock item job r urls) now new_id db.origins
            db.jobs fresh s)
        (λ _. s)

  written_page-IsSound :
      (item : Item) (job : Job) (r : CrawlResult) (urls : List String) (document : Document)
      (db : Db)
      → IsFresh new_id db.jobs
      → IsSound db.jobs
      → IsSound (written_page platform index new_id now clock item job r urls document db).jobs
  unfolding written_page link_edges
  written_page-IsSound item job r urls document db fresh s =
      let f = succeed_job now r (length urls) document.id in
      let keeps = succeed_job-Keeps now r (length urls) document.id in
      follow_links-IsSound item job r urls (link_edges job r urls (write_job r f db))
        (IsFresh-update_where new_id (by_id r.job_id) f keeps db.jobs fresh)
        (write_job-IsSound r f db keeps (succeed_job-IsConsistent now r (length urls) document.id)
          s)

  apply_succeeded-IsSound :
      (item : Item) (job : Job) (r : CrawlResult) (urls : List String) (document : Document)
      (db : Db)
      → IsFresh new_id db.jobs
      → IsSound db.jobs
      → IsSound (apply_succeeded platform index new_id now clock item job r urls document db).0.jobs
  unfolding apply_succeeded
  apply_succeeded-IsSound item job r urls document db fresh s =
      indexed_page-IsSound item r _ _ (written_page-IsSound item job r urls document db fresh s)

  apply_filtered-IsSound :
      (item : Item) (job : Job) (r : CrawlResult) (urls : List String) (db : Db)
      → IsFresh new_id db.jobs
      → IsSound db.jobs
      → IsSound (apply_filtered platform index new_id now clock item job r urls db).jobs
  unfolding apply_filtered push_event
  apply_filtered-IsSound item job r urls db fresh s =
      let f = filter_job now r (length urls) in
      follow_links-IsSound item job r urls (write_job r f db)
        (IsFresh-update_where new_id (by_id r.job_id) f (filter_job-Keeps now r (length urls))
          db.jobs fresh)
        (write_job-IsSound r f db (filter_job-Keeps now r (length urls))
          (filter_job-IsConsistent now r (length urls)) s)

  apply_outcome-IsSound :
      (item : Item) (job : Job) (r : CrawlResult) (urls : List String) (outcome : JobOutcome)
      (db : Db)
      → IsFresh new_id db.jobs
      → IsSound db.jobs
      → IsSound (apply_outcome platform index new_id now clock item job r urls outcome db).0.jobs
  unfolding apply_outcome apply_retryable apply_requires_js apply_blocked apply_failed
      apply_dead_letter apply_gone push_event
  apply_outcome-IsSound item job r urls (succeeded document) db fresh s =
      apply_succeeded-IsSound item job r urls document db fresh s
  apply_outcome-IsSound item job r urls (filtered reason) db fresh s =
      apply_filtered-IsSound item job r urls db fresh s
  apply_outcome-IsSound item job r urls (retryable kind message at) db fresh s =
      write_job-IsSound r _ db (retry_job-Keeps r (length urls) kind message at)
        (retry_job-IsConsistent r (length urls) kind message at) s
  apply_outcome-IsSound item job r urls (requires_js_render message) db fresh s =
      write_job-IsSound r _ db (render_job-Keeps r (length urls))
        (render_job-IsConsistent r (length urls)) s
  apply_outcome-IsSound item job r urls (blocked kind message) db fresh s =
      write_job-IsSound r _ db (close_job-Keeps now Status.blocked r (length urls) kind message)
        (λ j. close_job-IsConsistent now Status.blocked r (length urls) kind message j refl) s
  apply_outcome-IsSound item job r urls (failed kind message) db fresh s =
      write_job-IsSound r _ db (close_job-Keeps now Status.failed r (length urls) kind message)
        (λ j. close_job-IsConsistent now Status.failed r (length urls) kind message j refl) s
  apply_outcome-IsSound item job r urls (dead_letter kind message) db fresh s =
      write_job-IsSound r _ db (close_job-Keeps now Status.dead_letter r (length urls) kind message)
        (λ j. close_job-IsConsistent now Status.dead_letter r (length urls) kind message j refl) s
  apply_outcome-IsSound item job r urls (gone kind message) db fresh s =
      write_job-IsSound r _ db (close_job-Keeps now Status.failed r (length urls) kind message)
        (λ j. close_job-IsConsistent now Status.failed r (length urls) kind message j refl) s

  finish_report-IsSound :
      (item : Item) (job : Job) (r : CrawlResult) (o : Outcome)
      → IsSound o.0.jobs
      → IsSound (finish_report platform index new_id now clock item job r o).0.jobs
  finish_report-IsSound item job r (db, none) s = s
  finish_report-IsSound item job r (db, some e) s = s

  pub apply_staged_result-IsSound :
      (item : Item) (r : CrawlResult) (db : Db)
      → IsFresh new_id db.jobs
      → IsSound db.jobs
      → IsSound (apply_staged_result platform index new_id now clock item r db).0.jobs
  unfolding apply_staged_result
  apply_staged_result-IsSound item r db fresh s = elim (Option-cases (in_flight item db.jobs)) [
    | inl e ↦ rw (e, apply_staged_result) s
    | inr (job, e) ↦
        rw (e, apply_staged_result)
          (if_elim (λ (o : Outcome). IsSound o.0.jobs) (str_eq job.url r.url)
            (λ _. finish_report-IsSound item job r _ (
              apply_outcome-IsSound item job r
                (scoped_urls platform index new_id now clock db.blacklist job r)
                (decide_outcome platform index new_id now clock db.blacklist job r) db fresh s))
            (λ _. s))
  ]

pub mark_projection_failure-IsSound :
    (item : Item) (message : String) (now : ℕ) (db : Db)
    → IsSound db.jobs
    → IsSound (mark_projection_failure item message now db).jobs
unfolding mark_projection_failure push_event
mark_projection_failure-IsSound item message now db s =
    elim (Option-cases (in_flight item db.jobs)) [
      | inl e ↦ rw (e, mark_projection_failure) s
      | inr (job, e) ↦
          rw (e, mark_projection_failure)
            (IsSound-update_where (awaits item) (fail_projection now message)
              (fail_projection-Keeps now message)
              (λ j _ _. fail_projection-IsConsistent now message j) db.jobs s)
    ]
