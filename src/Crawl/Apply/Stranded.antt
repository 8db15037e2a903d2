-- ===== src/Crawl/Apply/Stranded.antt =====
-- What becomes of a job whose page could not be indexed (`apply_staged_result` and
-- `mark_projection_failure` of services/api/src/crawler.rs).
use find_verse.External.{Platform}
use find_verse.Common.Error.{internal}
use find_verse.Crawl.Rows.{Job, Item}
use find_verse.Crawl.Admin.{is_succeeded}
use find_verse.Crawl.Outcome.{CrawlResult, Document}
use find_verse.Crawl.Store.{Db}
use find_verse.Crawl.Enqueue.{
  Queue, EnqueueRequest, insert_url, new_job, drop_finished, enqueue_urls, superseded,
}
use find_verse.Crawl.Enqueue.Loop.{enqueue_loop_inv}
use find_verse.Crawl.Apply.Rows.{awaits, in_flight, succeed_job}
use find_verse.Crawl.Apply.{
  SearchIndex, by_id, link_edges, indexed_page, follow_request, follow_links, written_page,
  apply_succeeded, mark_projection_failure,
}
use find_verse.Prelude.{
  ℕ, List, [], ◌∷◌, ◌++◌, String, Bool, none, some, true, false, ◌&&◌, ◌≡◌, refl, sym, subst,
  length, ltb, any, str_eq, if_elim, All, All-append, All-delete_where, update_where, arith,
}

abbrev Unawaited : Item → List Job → Type 0
Unawaited item jobs = All (λ j. awaits item j ≡ false) jobs

in_flight-none : (item : Item) (jobs : List Job) → Unawaited item jobs → in_flight item jobs ≡ none
unfolding in_flight
in_flight-none item [] h = refl
in_flight-none item (j ∷ js) h = ground (arith, h.0, in_flight-none item js h.1)

closed_rows :
    (item : Item) (r : CrawlResult) (now n : ℕ) (id : String) (jobs : List Job)
    → r.job_id ≡ item.job_id
    → Unawaited item (update_where (by_id r.job_id) (succeed_job now r n id) jobs)
unfolding succeed_job
closed_rows item r now n id [] e = tt
closed_rows item r now n id (j ∷ js) e = (rw e (ground arith), closed_rows item r now n id js e)

-- A row of this id has the status of success.
abbrev pub has_succeeded : String → List Job → Bool
has_succeeded id jobs = any (λ j. str_eq j.id id && is_succeeded j.status) jobs

succeeded_rows :
    (r : CrawlResult) (now n : ℕ) (document_id id : String) (jobs : List Job)
    → any (by_id id) jobs ≡ true
    → has_succeeded id (update_where (by_id id) (succeed_job now r n document_id) jobs) ≡ true
unfolding succeed_job
succeeded_rows r now n document_id id [] h = h
succeeded_rows r now n document_id id (j ∷ js) h =
    ground (arith, succeeded_rows r now n document_id id js)

has_succeeded-append :
    (id : String) (xs ys : List Job)
    → has_succeeded id xs ≡ true
    → has_succeeded id (xs ++ ys) ≡ true
has_succeeded-append id [] ys h = absurd (ground (arith, h))
has_succeeded-append id (x ∷ xs) ys h = ground (arith, has_succeeded-append id xs ys)

module _ (platform : Platform) (r : EnqueueRequest) (now : ℕ) (id : String) where
  insert_url-succeeded :
      r.allow_revisit ≡ false
      → (new_id : String) (q : Queue) (found : String × String) → has_succeeded id q.jobs ≡ true
      → has_succeeded id (insert_url platform r now new_id q found).jobs ≡ true
  unfolding insert_url drop_finished
  insert_url-succeeded e new_id q (url, key) h =
      let job = new_job platform r now new_id url key in
      ground (arith, e, has_succeeded-append id q.jobs (job ∷ []) h)

module _ (platform : Platform) (r : EnqueueRequest) (now : ℕ) (item : Item) where
  insert_url-Unawaited :
      (id : String) (q : Queue) (found : String × String)
      → Unawaited item q.jobs
      → Unawaited item (insert_url platform r now id q found).jobs
  unfolding insert_url drop_finished new_job
  insert_url-Unawaited id q (url, key) h =
      let P = λ (j : Job). awaits item j ≡ false in
      let kept =
        if_elim (All P) r.allow_revisit
          (λ _. All-delete_where P (superseded platform r url) q.jobs h) (λ _. h) in
      let job = new_job platform r now id url key in
      ground (
        arith,
        kept,
        All-append P (drop_finished platform r url q.jobs) (job ∷ []) kept (ground arith, tt),
      )

module _ (platform : Platform) (index : SearchIndex) (new_id : ℕ → String) (now clock : ℕ)
    (item : Item) (job : Job) (r : CrawlResult) (urls : List String) where
  follow_links-Unawaited :
      (db : Db)
      → Unawaited item db.jobs
      → Unawaited item (follow_links platform index new_id now clock item job r urls db).jobs
  unfolding follow_links enqueue_urls
  follow_links-Unawaited db h =
      let request = follow_request platform index new_id now clock item job r urls in
      if_elim (λ (d : Db). Unawaited item d.jobs) (ltb job.depth job.max_depth)
        (λ _.
          enqueue_loop_inv platform db.blacklist request now (λ q. Unawaited item q.jobs)
            (insert_url-Unawaited platform request now item) new_id 0 request.urls _ h)
        (λ _. h)

  follow_links-documents :
      (db : Db)
      → (follow_links platform index new_id now clock item job r urls db).documents ≡ db.documents
  unfolding follow_links
  follow_links-documents db =
      if_elim (λ (d : Db). d.documents ≡ db.documents) (ltb job.depth job.max_depth) (λ _. refl)
        (λ _. refl)

  follow_links-succeeded :
      (id : String) (db : Db)
      → has_succeeded id db.jobs ≡ true
      → has_succeeded id (follow_links platform index new_id now clock item job r urls db).jobs
        ≡ true
  unfolding follow_links enqueue_urls follow_request
  follow_links-succeeded id db h =
      let request = follow_request platform index new_id now clock item job r urls in
      if_elim (λ (d : Db). has_succeeded id d.jobs ≡ true) (ltb job.depth job.max_depth)
        (λ _.
          enqueue_loop_inv platform db.blacklist request now (λ q. has_succeeded id q.jobs ≡ true)
            (insert_url-succeeded platform request now id refl) new_id 0 request.urls _ h)
        (λ _. h)

  written_page-Unawaited :
      (document : Document) (db : Db)
      → r.job_id ≡ item.job_id
      → Unawaited item
          (written_page platform index new_id now clock item job r urls document db).jobs
  unfolding written_page link_edges
  written_page-Unawaited document db e =
      follow_links-Unawaited _ (closed_rows item r now (length urls) document.id db.jobs e)

  written_page-documents :
      (document : Document) (db : Db)
      → (written_page platform index new_id now clock item job r urls document db).documents
        ≡ db.documents
  unfolding written_page link_edges
  written_page-documents document db = follow_links-documents _

  written_page-succeeded :
      (document : Document) (db : Db)
      → any (by_id r.job_id) db.jobs ≡ true
      → has_succeeded r.job_id
          (written_page platform index new_id now clock item job r urls document db).jobs
        ≡ true
  unfolding written_page link_edges
  written_page-succeeded document db e =
      follow_links-succeeded r.job_id _
        (succeeded_rows r now (length urls) document.id r.job_id db.jobs e)

unfound_failure :
    (item : Item) (message : String) (now : ℕ) (db : Db)
    → in_flight item db.jobs ≡ none
    → mark_projection_failure item message now db ≡ db
unfolding mark_projection_failure
unfound_failure item message now db e = rw (e, mark_projection_failure) refl

refused_page :
    (item : Item) (r : CrawlResult) (message : String) (later : ℕ) (o : List Document × Bool)
    (db : Db)
    → o.1 ≡ false
    → has_succeeded r.job_id db.jobs ≡ true
    → in_flight item db.jobs ≡ none
    → let out = indexed_page item r o db in
      (out.1 ≡ some (internal "index"))
      × (has_succeeded r.job_id out.0.jobs ≡ true)
      × (mark_projection_failure item message later out.0 ≡ out.0)
unfolding indexed_page
refused_page item r message later (documents, true) db e h gone = absurd (ground (arith, e))
refused_page item r message later (documents, false) db e h gone =
    (refl, h, unfound_failure item message later (record db { documents = documents }) gone)

-- For a report on the job of its item, with the row of the job in the table: where the call of the index
-- with the documents as they are fails, the report ends in an error; the row of the job has the status
-- of success all the same; and `mark_projection_failure`, at any later time, changes nothing.
pub apply_succeeded-refused :
    (platform : Platform) (index : SearchIndex) (new_id : ℕ → String) (now clock : ℕ) (item : Item)
    (job : Job) (r : CrawlResult) (urls : List String) (document : Document) (db : Db)
    (message : String) (later : ℕ)
    → r.job_id ≡ item.job_id
    → any (by_id r.job_id) db.jobs ≡ true
    → (index.upsert_document db.documents document).1 ≡ false
    → let out = apply_succeeded platform index new_id now clock item job r urls document db in
      (out.1 ≡ some (internal "index"))
      × (has_succeeded r.job_id out.0.jobs ≡ true)
      × (mark_projection_failure item message later out.0 ≡ out.0)
unfolding apply_succeeded
apply_succeeded-refused platform index new_id now clock item job r urls document db message later e
      found refused =
    let written = written_page platform index new_id now clock item job r urls document db in
    refused_page item r message later (index.upsert_document written.documents document) written
      (subst (λ ds. (index.upsert_document ds document).1 ≡ false)
        (sym (written_page-documents platform index new_id now clock item job r urls document db))
        refused)
      (written_page-succeeded platform index new_id now clock item job r urls document db found)
      (in_flight-none item written.jobs
        (written_page-Unawaited platform index new_id now clock item job r urls document db e))
