-- ===== src/Crawl/Store.antt =====
-- The state behind services/api/src/crawler.rs: the tables of the crawl database and the index of
-- documents. Errors of the database itself are not modelled, nor are the columns of `documents`.
use find_verse.Crawl.Rows.{Job, Origin, Item, Batch, Event}
use find_verse.Common.Error.{ApiError}
use find_verse.Crawl.Outcome.{Document}
use find_verse.Prelude.{ℕ, List, ◌∷◌, String, Option, none, some, Bool}

-- A row of `domain_crawl_stats`, less the figures on changes and the times.
pub record DomainStats : Type 0 where
  pub domain : String
  pub total_pages_indexed : ℕ
  pub total_pages_failed : ℕ
  pub consecutive_failures : ℕ
  pub health_status : String

pub record Rule : Type 0 where
  pub id : String
  pub owner : String
  pub name : String
  pub seed_url : String
  pub interval_minutes : ℕ
  pub max_depth : ℕ
  pub max_pages : ℕ
  pub same_origin_concurrency : ℕ
  pub discovery_scope : String
  pub max_discovered_urls_per_page : ℕ
  pub enabled : Bool
  pub last_enqueued_at : Option ℕ

pub record Db : Type 0 where
  pub jobs : List Job
  pub origins : List Origin
  pub items : List Item
  pub batches : List Batch
  pub events : List Event
  pub rules : List Rule
  pub stats : List DomainStats
  pub edges : List (String × String)
  pub blacklist : List String
  pub documents : List Document

-- An operation that fails keeps what it has written.
abbrev pub Outcome : Type 0
Outcome = Db × Option ApiError

-- The rest of an operation, which an error skips.
abbrev pub and_then : Outcome → (Db → Outcome) → Outcome
and_then (db, none) rest = rest db
and_then (db, some error) rest = (db, some error)

unfoldable pub push_event : String → String → String → Option String → Option String → Db → Db
push_event owner event_type status url crawler_id db = record db {
  events =
      record {
        owner = owner;
        crawler_id = crawler_id;
        event_type = event_type;
        status = status;
        url = url;
      }
      ∷ db.events;
}
