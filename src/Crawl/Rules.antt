-- ===== src/Crawl/Rules.antt =====
-- services/api/src/crawler.rs: `apply_due_rules`, by which the seeds of the crawl rules come back.
pub mod Due
pub mod Offers
use Prim.Native.String
use find_verse.External.{Platform}
use find_verse.Common.Scope.{from_db_value}
use find_verse.Crawl.Store.{Db, Rule, push_event}
use find_verse.Crawl.Enqueue.{EnqueueRequest, Queue, enqueue_urls}
use find_verse.Prelude.{
  ℕ, ◌+◌, ◌*◌, List, [], ◌∷◌, String, Option, none, some, Bool, true, false, ◌&&◌, str_eq, ltb, leb,
  select_where, update_where, if◌then◌else◌,
}

-- `extract(epoch from (now - last_enqueued_at)) / 60 >= interval_minutes`
abbrev pub interval_over : ℕ → ℕ → Option ℕ → Bool
interval_over now minutes none = true
interval_over now minutes (some last) = leb (last + minutes * 60) now

abbrev pub is_due : ℕ → Rule → Bool
is_due now rule = rule.enabled && interval_over now rule.interval_minutes rule.last_enqueued_at

unfoldable pub rule_request : String → Rule → EnqueueRequest
unfolding from_db_value
rule_request budget_id rule = record {
  developer_id = rule.owner;
  urls = rule.seed_url ∷ [];
  source = String.◌++◌ "rule:" rule.name;
  budget_id = budget_id;
  depth = 0;
  max_depth = rule.max_depth;
  max_pages = rule.max_pages;
  same_origin_concurrency = rule.same_origin_concurrency;
  submitted_by = some rule.owner;
  rule_id = some rule.id;
  discovery_scope = from_db_value rule.discovery_scope;
  discovery_host = none;
  max_discovered_urls_per_page = rule.max_discovered_urls_per_page;
  allow_revisit = true;
}

-- `update crawl_rules set last_enqueued_at = now where id = …`
unfoldable pub stamp_rule : ℕ → String → List Rule → List Rule
stamp_rule now id rules =
    update_where (λ x. str_eq x.id id) (λ x. record x { last_enqueued_at = some now }) rules

-- The tables after the seed of a rule was offered to the frontier.
unfoldable pub note_rule : Rule → Queue → Db → Db
unfolding push_event
note_rule rule q db =
    let queued = record db { jobs = q.jobs; origins = q.origins } in
    if ltb 0 q.accepted
    then push_event rule.owner "rule-enqueued" "ok" (some rule.seed_url) none queued
    else queued

module _ (platform : Platform) (now : ℕ) where
  -- One turn of the loop; `new_id` gives the ids that it draws.
  unfoldable pub apply_rule : String → (ℕ → String) → Rule → Db → Db
  unfolding rule_request stamp_rule note_rule enqueue_urls
  apply_rule budget_id new_id rule db =
      let stamped = record db { rules = stamp_rule now rule.id db.rules } in
      note_rule rule
        (enqueue_urls platform db.blacklist (rule_request budget_id rule) now new_id db.origins
          db.jobs)
        stamped

  unfoldable pub apply_rules : (Rule → String) → (Rule → ℕ → String) → List Rule → Db → Db
  unfolding apply_rule
  apply_rules budget new_id [] db = db
  apply_rules budget new_id (rule ∷ rules) db =
      apply_rules budget new_id rules (apply_rule (budget rule) (new_id rule) rule db)

  unfoldable pub apply_due_rules : (Rule → String) → (Rule → ℕ → String) → Db → Db
  unfolding apply_rules
  apply_due_rules budget new_id db =
      apply_rules budget new_id (select_where (is_due now) db.rules) db
