-- ===== src/Crawl/Projection.antt =====
-- services/api/src/crawl/projection.rs and `process_pending_ingests` of services/api/src/crawler.rs:
-- claimed items are applied one by one. The tasks of a batch run at once in the source; here they
-- finish in the order of the list, one after another, and none panics.
pub mod Rounds
use find_verse.External.{Platform}
use find_verse.Common.Error.{error_text, internal}
use find_verse.Crawl.Rows.{Item}
use find_verse.Crawl.Outcome.{CrawlResult}
use find_verse.Crawl.Store.{Db, Outcome}
use find_verse.Crawl.Ingest.{claim_pending_items, mark_item_completed, mark_item_failed}
use find_verse.Crawl.Apply.{SearchIndex, apply_staged_result, mark_projection_failure}
use find_verse.Prelude.{
  ℕ, zero, suc, ◌+◌, ◌-◌, List, [], ◌∷◌, String, Option, none, some, Bool, ltb, ◌==◌, if◌then◌else◌,
}

-- The tables, and whether the item was projected.
unfoldable pub finish_item : Item → ℕ → Outcome → Db × ℕ
unfolding mark_item_completed mark_item_failed mark_projection_failure
finish_item item now (db, none) = (mark_item_completed item now db, 1)
finish_item item now (db, some error) = (
  mark_item_failed item (error_text error) now
      (mark_projection_failure item (error_text error) now db),
  0,
)

-- `load_result` reads a staged result; `new_id item` gives the ids for what that item brings in.
module _ (platform : Platform) (index : SearchIndex) (load_result : String → Option CrawlResult)
    (new_id : Item → ℕ → String) (now clock : ℕ) where
  unfoldable pub apply_item : Item → Db → Outcome
  unfolding apply_staged_result
  apply_item item db = elim (load_result item.blob_id) [
    | none ↦ (db, some (internal "blob store"))
    | some r ↦ apply_staged_result platform index (new_id item) now clock item r db
  ]

  unfoldable pub drain_items : List Item → Db → Db × ℕ
  unfolding apply_item finish_item
  drain_items [] db = (db, 0)
  drain_items (item ∷ items) db =
      let (db', done) = finish_item item now (apply_item item db) in
      let (db'', rest) = drain_items items db' in (db'', done + rest)

  unfoldable pub drain : ℕ → Db → Db × ℕ
  unfolding claim_pending_items drain_items
  drain limit db = let (db', items) = claim_pending_items limit now db in drain_items items db'

  -- `while processed < limit`, on fuel; `none` means that the fuel ran out.
  unfoldable pub process_pending_ingests : ℕ → ℕ → ℕ → Db → Option (Db × ℕ)
  unfolding drain
  process_pending_ingests zero limit processed db = none
  process_pending_ingests (suc fuel) limit processed db =
      let (db', drained) = drain (limit - processed) db in
      let next = process_pending_ingests fuel limit (processed + drained) db' in
      let stop = if drained == 0 then some (db', processed) else next in
      if ltb processed limit then stop else some (db, processed)
