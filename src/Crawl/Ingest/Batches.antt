-- ===== src/Crawl/Ingest/Batches.antt =====
-- What the stage of a batch says of its items (services/api/src/crawl/ingest.rs).
use find_verse.Crawl.Rows.{Item, Batch, completed, failed}
use find_verse.Crawl.Ingest.{
  is_open, is_completed, is_failed, of_lease, batch_stage, batch_of, closed_at,
  refresh_batch_status, mark_item_completed, mark_item_failed,
}
use find_verse.Crawl.Store.{Db}
use find_verse.Prelude.{
  Option, none, some, is_some, All, select_where, update_where, str_eq, if_elim, ◌||◌, ℕ, ◌+◌, List,
  [], ◌∷◌, String, Bool, true, false, ◌≡◌, ◌↔◌, ◌&&◌, any, count_where, ltb, arith,
}

abbrev failed_of : String → List Item → ℕ
failed_of lease items = count_where (λ i. of_lease lease i && is_failed i.stage) items

abbrev open_of : String → List Item → ℕ
open_of lease items = count_where (λ i. of_lease lease i && is_open i.stage) items

-- Whether every item of the lease is completed.
pub all_completed : String → List Item → Bool
all_completed lease [] = true
all_completed lease (i ∷ items) =
    let rest = all_completed lease items in
    elim (of_lease lease i) [ true ↦ is_completed i.stage && rest | false ↦ rest ]

all_completed_counts :
    (lease : String) (items : List Item)
    → (all_completed lease items ≡ true) ↔ (failed_of lease items + open_of lease items ≡ 0)
unfolding all_completed
all_completed_counts lease [] = ground arith
all_completed_counts lease (i ∷ items) = ground (arith, all_completed_counts lease items)

any_failed_counts :
    (lease : String) (items : List Item)
    → (any (λ i. of_lease lease i && is_failed i.stage) items ≡ true)
      ↔ (ltb 0 (failed_of lease items) ≡ true)
any_failed_counts lease [] = ground arith
any_failed_counts lease (i ∷ items) = ground (arith, any_failed_counts lease items)

-- `batch_stage` is `completed` exactly when every item of the lease is completed, and `failed` exactly
-- when one of them failed.
pub batch_stage_lem :
    (lease : String) (items : List Item)
    → ((batch_stage lease items ≡ completed) ↔ (all_completed lease items ≡ true))
      × ((batch_stage lease items ≡ failed)
          ↔ (any (λ i. of_lease lease i && is_failed i.stage) items ≡ true))
unfolding batch_stage
batch_stage_lem lease items =
    ground (arith, all_completed_counts lease items, any_failed_counts lease items)

abbrev pub any_failed_of : String → List Item → Bool
any_failed_of lease items = any (λ i. of_lease lease i && is_failed i.stage) items

-- What a batch says of the items of its lease, and when it has an end.
pub record IsTold (lease : String) (items : List Item) (b : Batch) : Type 0 where
  pub told_completed : (b.stage ≡ completed) ↔ (all_completed lease items ≡ true)
  pub told_failed : (b.stage ≡ failed) ↔ (any_failed_of lease items ≡ true)
  pub told_end : is_some b.finished_at ≡ (all_completed lease items || any_failed_of lease items)

staged-IsTold :
    (lease : String) (items : List Item) (now : ℕ) (message : Option String) (b : Batch)
    → IsTold lease items (record b {
      stage = batch_stage lease items;
      finished_at = closed_at now (batch_stage lease items);
      error_message = message;
    })
unfolding batch_stage
staged-IsTold lease items now message b =
    let completed_lem = all_completed_counts lease items in
    let failed_lem = any_failed_counts lease items in
    record {
      told_completed = (batch_stage_lem lease items).0;
      told_failed = (batch_stage_lem lease items).1;
      told_end = ground (arith, completed_lem, failed_lem);
    }

-- The batches of a lease; there is one, by the key of the table.
abbrev pub batches_of : String → List Batch → List Batch
batches_of lease batches = select_where (batch_of lease) batches

IsTold-batches :
    (lease : String) (items : List Item) (f : Batch → Batch) (batches : List Batch)
    → ((b : Batch) → IsTold lease items (f b))
    → All (IsTold lease items) (batches_of lease (update_where (batch_of lease) f batches))
IsTold-batches lease items f [] h = tt
IsTold-batches lease items f (b ∷ batches) h =
    let ih = IsTold-batches lease items f batches h in
    let Told = All (IsTold lease items) in
    if_elim (λ (c : Batch). Told (batches_of lease (c ∷ update_where (batch_of lease) f batches)))
      (batch_of lease b) (λ _. if_elim Told (batch_of lease (f b)) (λ _. (h b, ih)) (λ _. ih))
      (λ e. if_elim Told (batch_of lease b) (λ t. absurd (ground (arith, e, t))) (λ _. ih))

refresh_batch_status-IsTold :
    (lease : String) (error_message : Option String) (now : ℕ) (db : Db)
    → let out = refresh_batch_status lease error_message now db in
      All (IsTold lease out.items) (batches_of lease out.batches)
unfolding refresh_batch_status
refresh_batch_status-IsTold lease error_message now db =
    IsTold-batches lease db.items
      (λ b. record b {
        stage = batch_stage lease db.items;
        finished_at = closed_at now (batch_stage lease db.items);
        error_message = error_message;
      })
      db.batches (staged-IsTold lease db.items now error_message)

-- After an item was marked as completed, and after one was marked as failed, the batch of its lease
-- tells of all items of the lease: it is completed exactly when every item is, failed exactly when one
-- is, and has an end exactly in these two cases.
pub mark_item-IsTold :
    (item : Item) (message : String) (now : ℕ) (db : Db)
    → let done = mark_item_completed item now db in
      let lost = mark_item_failed item message now db in
      All (IsTold item.lease_id done.items) (batches_of item.lease_id done.batches)
      × All (IsTold item.lease_id lost.items) (batches_of item.lease_id lost.batches)
unfolding mark_item_completed mark_item_failed refresh_batch_status
mark_item-IsTold item message now db =
    let named = λ (i : Item). str_eq i.id item.id in
    let done : Db = record db {
      items =
          update_where named
            (λ i. record i { stage = completed; finished_at = some now; error_message = none })
            db.items;
    } in
    let lost : Db = record db {
      items =
          update_where named
            (λ i. record i { stage = failed; finished_at = some now; error_message = some message })
            db.items;
    } in
    (
      refresh_batch_status-IsTold item.lease_id none now done,
      refresh_batch_status-IsTold item.lease_id (some message) now lost,
    )
