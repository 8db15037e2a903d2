-- ===== src/Crawl/Apply.antt =====
-- services/api/src/crawler.rs: `apply_staged_result`, `update_origin_after_report` and
-- `mark_projection_failure`. What the pages of `documents` count beside the index is left out.
pub mod Rows
pub mod Tally
pub mod Origins
pub mod Polite
pub mod Links
pub mod Stranded
use find_verse.External.{Platform}
use find_verse.Common.Address.{extract_host, origin_key}
use find_verse.Common.Digest.{stable_document_id}
use find_verse.Common.Scope.{from_db_value, url_matches_domain_list, filter_discovered_urls}
use find_verse.Common.Error.{ApiError, bad_request, conflict, internal}
use find_verse.Crawl.Rows.{Job, Item, Status, is_ingesting, holds}
use find_verse.Crawl.Frontier.{owned}
use find_verse.Crawl.Outcome.{
  CrawlResult, Document, JobOutcome, succeeded, filtered, retryable, requires_js_render, blocked,
  failed, dead_letter, gone, finalized_url, classify_job_outcome,
}
use find_verse.Crawl.Store.{Db, DomainStats, Outcome, push_event}
use find_verse.Crawl.Enqueue.{EnqueueRequest, Queue, enqueue_urls}
use find_verse.Crawl.Apply.Rows.{
  awaits, in_flight, succeed_job, filter_job, retry_job, render_job, close_job, fail_projection,
}
use find_verse.Crawl.Apply.Tally.{record_failure, record_success, add_edges}
use find_verse.Crawl.Apply.Origins.{update_origin_after_report, release_slot}
use find_verse.Prelude.{
  ℕ, suc, ◌+◌, max, List, [], ◌∷◌, ◌++◌, map, String, Option, none, some, Bool, true, false, ◌&&◌,
  ◌||◌, not, str_eq, ltb, leb, any, is_some, is_empty, select_where, update_where, length,
  if◌then◌else◌,
}

-- The calls of services/api/src/store/search.rs, on the documents that its table and its index hold. An
-- upsert and the deletion of a site leave some documents, whether they succeed or not: the row is kept
-- when the index fails after it. The error of a single deletion is dropped.
pub record SearchIndex : Type 0 where
  pub upsert_document : List Document → Document → List Document × Bool
  pub purge_site : String → List Document → List Document × Option ApiError
  pub delete_document : String → List Document → List Document

abbrev pub by_id : String → Job → Bool
by_id id j = str_eq j.id id

abbrev pub write_job : CrawlResult → (Job → Job) → Db → Db
write_job r f db = record db { jobs = update_where (by_id r.job_id) f db.jobs }

abbrev note : Item → CrawlResult → String → String → Db → Db
note item r event_type status db =
    push_event item.owner event_type status (some (finalized_url r)) (some item.crawler_id) db

-- The links of a page that is not too deep are noted in the link graph.
unfoldable pub link_edges : Job → CrawlResult → List String → Db → Db
unfolding add_edges
link_edges job r urls db = record db {
  edges =
      if ltb job.depth job.max_depth then add_edges (finalized_url r) urls db.edges else db.edges;
}

-- What follows the call of the index: an error returns, and keeps what was written.
unfoldable pub indexed_page : Item → CrawlResult → List Document × Bool → Db → Outcome
unfolding push_event
indexed_page item r (documents, false) db =
    (record db { documents = documents }, some (internal "index"))
indexed_page item r (documents, true) db =
    (note item r "job-succeeded" "ok" (record db { documents = documents }), none)

-- `now` is read once for the whole report, and `clock` where the next attempt is planned.
module _ (platform : Platform) (index : SearchIndex) (new_id : ℕ → String) (now clock : ℕ) where
  open index use {upsert_document, delete_document}

  unfoldable pub page_is_blacklisted : List String → CrawlResult → Bool
  unfolding url_matches_domain_list
  page_is_blacklisted domains r =
      url_matches_domain_list platform r.url domains
      || url_matches_domain_list platform (finalized_url r) domains

  -- The addresses that the page leads to and that the crawl may follow.
  unfoldable pub scoped_urls : List String → Job → CrawlResult → List String
  unfolding filter_discovered_urls page_is_blacklisted url_matches_domain_list from_db_value
  scoped_urls domains job r =
      let found =
        filter_discovered_urls platform r.discovered_urls (from_db_value job.discovery_scope)
          job.discovery_host (max job.max_discovered_urls_per_page 1) in
      if page_is_blacklisted domains r
      then []
      else select_where (λ url. not (url_matches_domain_list platform url domains)) found

  -- The request by which a page's links enter the frontier.
  unfoldable pub follow_request : Item → Job → CrawlResult → List String → EnqueueRequest
  unfolding from_db_value
  follow_request item job r urls = record {
    developer_id = item.owner;
    urls = urls;
    source = finalized_url r;
    budget_id = job.budget_id;
    depth = job.depth + 1;
    max_depth = job.max_depth;
    max_pages = job.max_pages;
    same_origin_concurrency = job.same_origin_concurrency;
    submitted_by = some item.owner;
    rule_id = job.rule_id;
    discovery_scope = from_db_value job.discovery_scope;
    discovery_host = job.discovery_host;
    max_discovered_urls_per_page = job.max_discovered_urls_per_page;
    allow_revisit = false;
  }

  unfoldable pub follow_links : Item → Job → CrawlResult → List String → Db → Db
  unfolding follow_request enqueue_urls
  follow_links item job r urls db =
      if ltb job.depth job.max_depth
      then (let q =
            enqueue_urls platform db.blacklist (follow_request item job r urls) now new_id
              db.origins db.jobs in
          record db { jobs = q.jobs; origins = q.origins })
      else db

  -- The tables once the job has succeeded and before its page is indexed.
  unfoldable pub written_page : Item → Job → CrawlResult → List String → Document → Db → Db
  unfolding succeed_job link_edges follow_links record_success extract_host
  written_page item job r urls document db =
      let written = write_job r (succeed_job now r (length urls) document.id) db in
      let followed = follow_links item job r urls (link_edges job r urls written) in
      record followed {
        stats = record_success (extract_host platform (finalized_url r)) followed.stats;
      }

  unfoldable pub apply_succeeded : Item → Job → CrawlResult → List String → Document → Db → Outcome
  unfolding written_page indexed_page
  apply_succeeded item job r urls document db =
      let written = written_page item job r urls document db in
      indexed_page item r (upsert_document written.documents document) written

  unfoldable pub apply_filtered : Item → Job → CrawlResult → List String → Db → Db
  unfolding filter_job follow_links push_event
  apply_filtered item job r urls db =
      note item r "job-filtered" "ok"
        (follow_links item job r urls (write_job r (filter_job now r (length urls)) db))

  unfoldable pub apply_retryable : Item → CrawlResult → List String → String → String → ℕ → Db → Db
  unfolding retry_job push_event
  apply_retryable item r urls kind message at db =
      note item r "job-requeued" "error"
        (write_job r (retry_job r (length urls) kind message at) db)

  unfoldable pub apply_requires_js : Item → CrawlResult → List String → Db → Db
  unfolding render_job push_event
  apply_requires_js item r urls db =
      note item r "job-requires-js" "ok" (write_job r (render_job r (length urls)) db)

  unfoldable pub apply_blocked : Item → CrawlResult → List String → String → String → Db → Db
  unfolding close_job push_event
  apply_blocked item r urls kind message db =
      note item r "job-blocked" "error"
        (write_job r (close_job now Status.blocked r (length urls) kind message) db)

  abbrev fail_domain : CrawlResult → Db → Db
  fail_domain r db = record db {
    stats = record_failure (extract_host platform (finalized_url r)) db.stats;
  }

  unfoldable pub apply_failed : Item → CrawlResult → List String → String → String → Db → Db
  unfolding close_job record_failure extract_host push_event
  apply_failed item r urls kind message db =
      note item r "job-failed" "error"
        (fail_domain r (write_job r (close_job now Status.failed r (length urls) kind message) db))

  unfoldable pub apply_dead_letter : Item → CrawlResult → List String → String → String → Db → Db
  unfolding close_job record_failure extract_host push_event
  apply_dead_letter item r urls kind message db = note item r "job-dead-lettered" "error" (
      fail_domain r
        (write_job r (close_job now Status.dead_letter r (length urls) kind message) db))

  abbrev delete_hint : Option String → List Document → List Document
  delete_hint none documents = documents
  delete_hint (some hint) documents = delete_document (stable_document_id platform hint) documents

  -- The page's final, first and canonical addresses leave the index.
  unfoldable pub forget_page : CrawlResult → List Document → List Document
  unfolding stable_document_id
  forget_page r documents =
      let rest = delete_document (stable_document_id platform (finalized_url r)) documents in
      delete_hint r.canonical_hint (
        if str_eq (finalized_url r) r.url
        then rest
        else delete_document (stable_document_id platform r.url) rest)

  unfoldable pub apply_gone : Item → CrawlResult → List String → String → String → Db → Db
  unfolding close_job forget_page record_failure extract_host push_event
  apply_gone item r urls kind message db =
      let written = write_job r (close_job now Status.failed r (length urls) kind message) db in
      note item r "job-gone" "error"
        (fail_domain r (record written { documents = forget_page r written.documents }))

  unfoldable pub apply_outcome : Item → Job → CrawlResult → List String → JobOutcome → Db → Outcome
  unfolding apply_succeeded apply_filtered apply_retryable apply_requires_js apply_blocked
      apply_failed apply_dead_letter apply_gone
  apply_outcome item job r urls (succeeded document) db =
      apply_succeeded item job r urls document db
  apply_outcome item job r urls (filtered reason) db = (apply_filtered item job r urls db, none)
  apply_outcome item job r urls (retryable kind message at) db =
      (apply_retryable item r urls kind message at db, none)
  apply_outcome item job r urls (requires_js_render message) db =
      (apply_requires_js item r urls db, none)
  apply_outcome item job r urls (blocked kind message) db =
      (apply_blocked item r urls kind message db, none)
  apply_outcome item job r urls (failed kind message) db =
      (apply_failed item r urls kind message db, none)
  apply_outcome item job r urls (dead_letter kind message) db =
      (apply_dead_letter item r urls kind message db, none)
  apply_outcome item job r urls (gone kind message) db =
      (apply_gone item r urls kind message db, none)

  unfoldable pub decide_outcome : List String → Job → CrawlResult → JobOutcome
  unfolding page_is_blacklisted classify_job_outcome
  decide_outcome domains job r =
      if page_is_blacklisted domains r
      then filtered "domain is blacklisted"
      else classify_job_outcome platform clock r job

  -- After the outcome the job's origin, and the origin that it was redirected to, are brought up to
  -- date; an error on the way skips that.
  abbrev pub finish_report : Item → Job → CrawlResult → Outcome → Outcome
  finish_report item job r (db, some error) = (db, some error)
  finish_report item job r (db, none) = (
    record db {
      origins =
          update_origin_after_report item.owner job.origin (origin_key platform (finalized_url r)) r
            now db.origins;
    },
    none,
  )

  unfoldable pub apply_staged_result : Item → CrawlResult → Db → Outcome
  unfolding in_flight scoped_urls decide_outcome apply_outcome update_origin_after_report origin_key
  apply_staged_result item r db = elim (in_flight item db.jobs) [
    | none ↦ (db, some (conflict "staged crawl job is no longer ingesting"))
    | some job ↦
        if str_eq job.url r.url
        then finish_report item job r (
            apply_outcome item job r (scoped_urls db.blacklist job r)
              (decide_outcome db.blacklist job r) db)
        else (db, some (bad_request "crawl report contained a job not assigned to this crawler"))
  ]

-- A job whose projection failed is closed, if it still waits for this item.
unfoldable pub mark_projection_failure : Item → String → ℕ → Db → Db
unfolding in_flight fail_projection release_slot push_event
mark_projection_failure item message now db = elim (in_flight item db.jobs) [
  | none ↦ db
  | some job ↦
      push_event item.owner "job-projection-failed" "error" (some job.url) (some item.crawler_id)
        (record db {
          jobs = update_where (awaits item) (fail_projection now message) db.jobs;
          origins = release_slot item.owner job.origin now db.origins;
        })
]
