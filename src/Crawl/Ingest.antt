-- ===== src/Crawl/Ingest.antt =====
-- services/api/src/crawl/ingest.rs: reports are staged as ingest items, the projector claims them,
-- and each lease has a batch that sums its items up.
pub mod Batches
pub mod Recovery
use find_verse.Common.Error.{ApiError, bad_request, internal}
use find_verse.Crawl.Rows.{
  Job, Item, Batch, Stage, pending, processing, completed, failed, is_ingesting,
}
use find_verse.Crawl.Outcome.{CrawlResult}
use find_verse.Crawl.Frontier.{report_job_url, accept_report}
use find_verse.Crawl.Store.{Db, Outcome, and_then}
use find_verse.Prelude.{
  ℕ, suc, ◌+◌, max, List, [], ◌∷◌, ◌++◌, map, String, Option, none, some, Bool, true, false, ◌&&◌,
  ◌||◌, not, str_eq, ltb, leb, ◌==◌, any, take, or_else, select_where, update_where, count_where,
  sort_by, if◌then◌else◌,
}

-- status in ('pending', 'processing')
abbrev pub is_open : Stage → Bool
is_open pending = true
is_open processing = true
is_open _ = false

abbrev pub is_pending : Stage → Bool
is_pending pending = true
is_pending _ = false

abbrev pub is_processing : Stage → Bool
is_processing processing = true
is_processing _ = false

abbrev pub is_completed : Stage → Bool
is_completed completed = true
is_completed _ = false

abbrev pub is_failed : Stage → Bool
is_failed failed = true
is_failed _ = false

abbrev pub of_lease : String → Item → Bool
of_lease lease i = str_eq i.lease_id lease

abbrev pub of_lease_job : String → String → Item → Bool
of_lease_job lease job_id i = of_lease lease i && str_eq i.job_id job_id

abbrev pub batch_of : String → Batch → Bool
batch_of lease b = str_eq b.lease_id lease

-- The batch of a lease; `on conflict (lease_id) do nothing`.
unfoldable pub ensure_batch : String → String → String → List Batch → List Batch
ensure_batch owner crawler_id lease batches =
    if any (batch_of lease) batches
    then batches
    else record {
      lease_id = lease;
      owner = owner;
      crawler_id = crawler_id;
      stage = pending;
      result_count = 0;
      started_at = none;
      finished_at = none;
      error_message = none;
    }
      ∷ batches

-- `on conflict (lease_id, crawl_job_id) do update`: an item that is there keeps its stage.
unfoldable pub upsert_item : Item → List Item → List Item
upsert_item item items =
    if any (of_lease_job item.lease_id item.job_id) items
    then update_where (of_lease_job item.lease_id item.job_id)
        (λ i. record i { owner = item.owner; crawler_id = item.crawler_id; blob_id = item.blob_id })
        items
    else items ++ item ∷ []

unfoldable pub lease_result_count : String → List Item → ℕ
lease_result_count lease items = count_where (of_lease lease) items

unfoldable pub pending_result_count : String → List Item → ℕ
pending_result_count owner items = count_where (λ i. str_eq i.owner owner && is_open i.stage) items

-- Whether a result may be staged: its job is held under this lease and has this address, or an item
-- for it was staged before.
unfoldable pub refusal :
    String → String → String → CrawlResult → List Job → List Item → Option ApiError
unfolding report_job_url
refusal owner crawler_id lease r jobs items =
    elim (report_job_url owner crawler_id lease r.job_id jobs) [
      | some url ↦
          if str_eq url r.url
          then none
          else some (bad_request "crawl report contained a job not assigned to this crawler")
      | none ↦
          if any (of_lease_job lease r.job_id) items
          then none
          else some (bad_request "crawl report contained a job not assigned to this lease")
    ]

-- `write_result` stores the result and gives the blob's id; `none` where it fails.
module _ (write_result : CrawlResult → Option String) (owner crawler_id lease : String)
    (now : ℕ) where
  unfoldable pub stage_one : String → CrawlResult → Db → Outcome
  unfolding refusal upsert_item
  stage_one item_id r db = elim (refusal owner crawler_id lease r db.jobs db.items) [
    | some error ↦ (db, some error)
    | none ↦ elim (write_result r) [
      | none ↦ (db, some (internal "blob store"))
      | some blob_id ↦ (
        record db {
          items =
              upsert_item
                (record {
                  id = item_id;
                  lease_id = lease;
                  owner = owner;
                  crawler_id = crawler_id;
                  job_id = r.job_id;
                  blob_id = blob_id;
                  stage = pending;
                  created_at = now;
                  started_at = none;
                  finished_at = none;
                  error_message = none;
                })
                db.items;
        },
        none,
      )
    ]
  ]

  -- The loop returns at the first error, and keeps what it staged before.
  unfoldable pub stage_loop : (ℕ → String) → ℕ → List CrawlResult → Db → Outcome
  unfolding stage_one
  stage_loop new_id n [] db = (db, none)
  stage_loop new_id n (r ∷ rs) db =
      and_then (stage_one (new_id n) r db) (λ db'. stage_loop new_id (suc n) rs db')

  abbrev reset_batch : ℕ → Batch → Batch
  reset_batch count b = record b {
    owner = owner;
    crawler_id = crawler_id;
    stage = if is_completed b.stage then b.stage else pending;
    result_count = count;
    error_message = none;
  }

  -- What follows the loop: the jobs become `ingesting`, and the batch is counted anew.
  unfoldable pub accept_staged : List CrawlResult → Db → Db
  unfolding accept_report lease_result_count
  accept_staged results db = record db {
    jobs = accept_report owner crawler_id lease (map (λ r. r.job_id) results) db.jobs;
    batches =
        update_where (batch_of lease) (reset_batch (lease_result_count lease db.items)) db.batches;
  }

  unfoldable pub stage_report : (ℕ → String) → List CrawlResult → Db → Outcome
  unfolding ensure_batch stage_loop accept_staged
  stage_report new_id results db =
      and_then
        (stage_loop new_id 0 results
          (record db { batches = ensure_batch owner crawler_id lease db.batches }))
        (λ db'. (accept_staged results db', none))

-- The status that `refresh_batch_status` computes from the items of a lease.
unfoldable pub batch_stage : String → List Item → Stage
batch_stage lease items =
    if ltb 0 (count_where (λ i. of_lease lease i && is_failed i.stage) items)
    then failed
    else if ltb 0 (count_where (λ i. of_lease lease i && is_open i.stage) items)
    then processing
    else completed

abbrev closed_at : ℕ → Stage → Option ℕ
closed_at now completed = some now
closed_at now failed = some now
closed_at now _ = none

unfoldable pub refresh_batch_status : String → Option String → ℕ → Db → Db
unfolding batch_stage
refresh_batch_status lease error_message now db =
    let stage = batch_stage lease db.items in
    record db {
      batches =
          update_where (batch_of lease)
            (λ b. record b {
              stage = stage;
              finished_at = closed_at now stage;
              error_message = error_message;
            })
            db.batches;
    }

unfoldable pub mark_item_completed : Item → ℕ → Db → Db
unfolding refresh_batch_status
mark_item_completed item now db = refresh_batch_status item.lease_id none now (record db {
  items =
      update_where (λ i. str_eq i.id item.id)
        (λ i. record i { stage = completed; finished_at = some now; error_message = none })
        db.items;
})

unfoldable pub mark_item_failed : Item → String → ℕ → Db → Db
unfolding refresh_batch_status
mark_item_failed item message now db =
    refresh_batch_status item.lease_id (some message) now (record db {
      items =
          update_where (λ i. str_eq i.id item.id)
            (λ i. record i { stage = failed; finished_at = some now; error_message = some message })
            db.items;
    })

abbrev older : Item → Item → Bool
older a b = leb a.created_at b.created_at

abbrev start_item : ℕ → Item → Item
start_item now i = record i { stage = processing; started_at = some now; error_message = none }

abbrev start_batch : ℕ → Batch → Batch
start_batch now b = record b {
  stage = processing;
  started_at = or_else b.started_at (some now);
  error_message = none;
}

-- The oldest pending items, at most `limit` of them, are handed to the projector.
unfoldable pub claim_pending_items : ℕ → ℕ → Db → Db × List Item
unfolding sort_by
claim_pending_items limit now db =
    let picked =
      take (max limit 1) (sort_by older (select_where (λ i. is_pending i.stage) db.items)) in
    (
      record db {
        items = update_where (λ i. any (λ p. str_eq i.id p.id) picked) (start_item now) db.items;
        batches =
            update_where (λ b. any (λ p. str_eq b.lease_id p.lease_id) picked) (start_batch now)
              db.batches;
      },
      map (start_item now) picked,
    )
