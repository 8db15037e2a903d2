-- ===== src/Crawl/Projection/Rounds.antt =====
-- The rounds of `process_pending_ingests` (services/api/src/crawler.rs) come to an end.
use find_verse.External.{Platform}
use find_verse.Crawl.Rows.{Item}
use find_verse.Crawl.Outcome.{CrawlResult}
use find_verse.Crawl.Store.{Db, Outcome}
use find_verse.Crawl.Ingest.{claim_pending_items}
use find_verse.Crawl.Apply.{SearchIndex}
use find_verse.Crawl.Projection.{
  finish_item, apply_item, drain_items, drain, process_pending_ingests,
}
use find_verse.Prelude.{
  ℕ, zero, suc, ◌+◌, ◌-◌, ◌≤◌, ◌<◌, max, List, [], ◌∷◌, String, Option, none, some, ◌≡◌, length,
  take, length-take-le, length-map, arith, ltb, ◌==◌, Bool-cases, inl, inr,
}

finish_item_counts : (item : Item) (now : ℕ) (o : Outcome) → (finish_item item now o).1 ≤ 1
unfolding finish_item
finish_item_counts item now (db, none) = omega arith
finish_item_counts item now (db, some e) = omega arith

claim_pending_items-le :
    (limit now : ℕ) (db : Db) → length (claim_pending_items limit now db).1 ≤ max limit 1
unfolding claim_pending_items
claim_pending_items-le limit now db =
    omega (arith, length-map {0, 0} _ (take (max limit 1) _), length-take-le {0} (max limit 1) _)

module _ (platform : Platform) (index : SearchIndex) (load_result : String → Option CrawlResult)
    (new_id : Item → ℕ → String) (now clock : ℕ) where
  drain_items_counts :
      (items : List Item) (db : Db)
      → (drain_items platform index load_result new_id now clock items db).1 ≤ length items
  unfolding drain_items
  drain_items_counts [] db = omega arith
  drain_items_counts (item ∷ items) db =
      let o = apply_item platform index load_result new_id now clock item db in
      omega
        (arith, finish_item_counts item now o, drain_items_counts items (finish_item item now o).0)

  drain_counts :
      (limit : ℕ) (db : Db)
      → (drain platform index load_result new_id now clock limit db).1 ≤ max limit 1
  unfolding drain
  drain_counts limit db =
      let claim = claim_pending_items limit now db in
      omega (arith, drain_items_counts claim.1 claim.0, claim_pending_items-le limit now db)

  rounds_end :
      (fuel limit processed : ℕ) (db : Db)
      → processed ≤ limit
      → limit - processed < fuel
      → (out : Db × ℕ) × (process_pending_ingests platform index load_result new_id now clock fuel
            limit processed db
          ≡ some out)
        × (out.1 ≤ limit)
  unfolding process_pending_ingests
  rounds_end zero limit processed db h f = absurd (omega arith)
  rounds_end (suc fuel) limit processed db h f = elim (Bool-cases (ltb processed limit)) [
    | inr done ↦ ((db, processed), rw done, h)
    | inl more ↦
        let d = drain platform index load_result new_id now clock (limit - processed) db in
        let few = drain_counts (limit - processed) db in
        elim (Bool-cases (d.1 == 0)) [
          | inl none_left ↦ ((d.0, processed), rw (more, none_left), h)
          | inr some_done ↦
              let rest =
                rounds_end fuel limit (processed + d.1) d.0 (ground arith) (ground arith) in
              (rest.0, rw (more, some_done) rest.1, rest.2)
        ]
  ]

-- With `limit + 1` rounds at hand `process_pending_ingests` returns, and it counts no more than
-- `limit` items as processed.
pub process_pending_ingests_returns :
    (platform : Platform) (index : SearchIndex) (load_result : String → Option CrawlResult)
    (new_id : Item → ℕ → String) (now clock limit : ℕ) (db : Db)
    → (out : Db × ℕ) × (process_pending_ingests platform index load_result new_id now clock
          (limit + 1)
          limit
          0
          db
        ≡ some out)
      × (out.1 ≤ limit)
process_pending_ingests_returns platform index load_result new_id now clock limit db =
    rounds_end platform index load_result new_id now clock (limit + 1) limit 0 db (omega arith)
      (omega arith)
