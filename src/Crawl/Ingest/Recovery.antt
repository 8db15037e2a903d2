-- ===== src/Crawl/Ingest/Recovery.antt =====
-- services/api/src/crawl/ingest.rs: `recover_stale_items`, which looks after items whose projection
-- stalled; and `recover_stale_ingests` of services/api/src/crawler.rs, which calls it.
use find_verse.Crawl.Rows.{Job, Item, pending, failed, is_ingesting}
use find_verse.Crawl.Ingest.{is_processing, refresh_batch_status}
use find_verse.Crawl.Store.{Db, push_event}
use find_verse.Prelude.{
  if◌then◌else◌, ℕ, ◌+◌, max, List, [], ◌∷◌, ◌++◌, map, String, Option, none, some, Bool, false,
  ◌&&◌, not, str_eq, ltb, any, select_where, update_where,
}

-- A job that an item belongs to, with a test on the job.
abbrev has_job : List Job → (Job → Bool) → Item → Bool
has_job jobs p i = any (λ j. str_eq j.owner i.owner && str_eq j.id i.job_id && p j) jobs

-- `started_at < now - timeout`
abbrev stale_since : ℕ → ℕ → Option ℕ → Bool
stale_since now timeout none = false
stale_since now timeout (some t) = ltb (t + timeout) now

abbrev is_stale : ℕ → ℕ → Item → Bool
is_stale now timeout i = is_processing i.stage && stale_since now timeout i.started_at

unfoldable pub refresh_all : List String → ℕ → Db → Db
unfolding refresh_batch_status
refresh_all [] now db = db
refresh_all (lease ∷ leases) now db =
    refresh_all leases now (refresh_batch_status lease none now db)

-- `timeout` is at least one second here.
abbrev pub is_replayed : ℕ → ℕ → List Job → Item → Bool
is_replayed now timeout jobs i =
    is_stale now timeout i && has_job jobs (λ j. is_ingesting j.status) i

abbrev pub is_lost : ℕ → ℕ → List Job → Item → Bool
is_lost now timeout jobs i =
    is_stale now timeout i && has_job jobs (λ j. not (is_ingesting j.status)) i

unfoldable pub replay_items : ℕ → ℕ → List Job → List Item → List Item
replay_items now timeout jobs items =
    update_where (is_replayed now timeout jobs)
      (λ i. record i { stage = pending; started_at = none; error_message = none }) items

unfoldable pub drop_items : ℕ → ℕ → List Job → List Item → List Item
drop_items now timeout jobs items =
    update_where (is_lost now timeout jobs)
      (λ i. record i {
        stage = failed;
        finished_at = some now;
        error_message = some "projection stalled after crawl job left ingesting";
      })
      items

-- The leases whose batches the recovery refreshes.
unfoldable pub touched_leases : ℕ → ℕ → Db → List String
unfolding replay_items
touched_leases now timeout db =
    map (λ i. i.lease_id)
      (select_where (is_replayed now timeout db.jobs) db.items
        ++ select_where (is_lost now timeout db.jobs) (replay_items now timeout db.jobs db.items))

-- An item whose projection stalled is replayed while its job still waits for it, and fails otherwise.
-- A lease that has several such items is refreshed once for each, to the same effect. The message is
-- kept without the job's status, which the source appends.
unfoldable pub recover_stale_items : ℕ → ℕ → Db → Db
unfolding replay_items drop_items touched_leases refresh_all
recover_stale_items now timeout_secs db =
    let timeout = max timeout_secs 1 in
    refresh_all (touched_leases now timeout db) now (record db {
      items = drop_items now timeout db.jobs (replay_items now timeout db.jobs db.items);
    })

abbrev job_url : List Job → Item → Option String
job_url [] i = none
job_url (j ∷ js) i =
    let rest = job_url js i in
    if str_eq j.owner i.owner && str_eq j.id i.job_id then some j.url else rest

unfoldable pub recovery_events : String → String → List Job → List Item → Db → Db
unfolding push_event
recovery_events event_type status jobs [] db = db
recovery_events event_type status jobs (i ∷ items) db =
    recovery_events event_type status jobs items
      (push_event i.owner event_type status (job_url jobs i) (some i.crawler_id) db)

-- `recover_stale_ingests` of services/api/src/crawler.rs: the recovery, and an event for each item.
unfoldable pub recover_stale_ingests : ℕ → ℕ → Db → Db
unfolding recover_stale_items replay_items recovery_events
recover_stale_ingests now timeout_secs db =
    let timeout = max timeout_secs 1 in
    let requeued = select_where (is_replayed now timeout db.jobs) db.items in
    let lost =
      select_where (is_lost now timeout db.jobs) (replay_items now timeout db.jobs db.items) in
    recovery_events "stale-ingest-failed" "error" db.jobs lost (
      recovery_events "stale-ingest-requeued" "ok" db.jobs requeued
        (recover_stale_items now timeout_secs db))
