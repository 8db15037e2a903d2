-- ===== src/Crawl/Enqueue.antt =====
-- services/api/src/crawler.rs: `enqueue_urls`, by which every address enters the frontier.
pub mod Budget
pub mod Loop
pub mod Unique
use Prim.Native.String
use find_verse.External.{Platform}
use find_verse.Common.Address.{normalize_url, origin_key, extract_host}
use find_verse.Common.Scope.{DiscoveryScope, as_str, url_matches_domain_list}
use find_verse.Crawl.Rows.{Job, Origin, queued, is_done}
use find_verse.Crawl.Frontier.{owned, find_origin}
use find_verse.Prelude.{
  ℕ, suc, ◌+◌, ◌-◌, ◌*◌, max, min, List, [], ◌∷◌, ◌++◌, String, Option, none, some, Bool, true,
  false, ◌&&◌, str_eq, leb, ◌==◌, any, or_else, ends_with, delete_where, count_where, if◌then◌else◌,
}

pub record EnqueueRequest : Type 0 where
  pub developer_id : String
  pub urls : List String
  pub source : String
  pub budget_id : String
  pub depth : ℕ
  pub max_depth : ℕ
  pub max_pages : ℕ
  pub same_origin_concurrency : ℕ
  pub submitted_by : Option String
  pub rule_id : Option String
  pub discovery_scope : DiscoveryScope
  pub discovery_host : Option String
  pub max_discovered_urls_per_page : ℕ
  pub allow_revisit : Bool

-- The two tables, and the loop's counters.
pub record Queue : Type 0 where
  pub jobs : List Job
  pub origins : List Origin
  pub accepted : ℕ
  pub budget_used : ℕ

-- 80 for a seed, and less the deeper the page lies.
unfoldable pub priority_at : ℕ → ℕ
priority_at depth = if depth == 0 then 80 else 50 + (10 - min depth 10) * 3

abbrev pub same_url : String → String → Job → Bool
same_url owner url j = owned owner j && str_eq j.url url

abbrev pub in_budget : String → String → Job → Bool
in_budget owner budget_id j = owned owner j && str_eq j.budget_id budget_id

-- `on conflict (owner_developer_id, url) do nothing`: whether the row is new.
unfoldable pub is_new : Job → List Job → Bool
is_new job jobs = if any (same_url job.owner job.url) jobs then false else true

-- `on conflict (owner_developer_id, origin_key) do nothing`
unfoldable pub ensure_origin : String → String → ℕ → List Origin → List Origin
ensure_origin owner key now origins = elim (find_origin owner key origins) [
  | some found ↦ origins
  | none ↦
      record {
        owner = owner;
        key = key;
        robots_status = "unknown";
        crawl_delay_secs = none;
        next_allowed_at = now;
        in_flight_count = 0;
        last_fetch_status = none;
        consecutive_failures = 0;
        robots_sitemaps = [];
        updated_at = now;
      }
      ∷ origins
]

infixl 5 ◌>>=◌
abbrev ◌>>=◌ {ℓ κ} : {A : Type ℓ} {B : Type κ} → Option A → (A → Option B) → Option B
none >>= k = none
some a >>= k = k a

module _ (platform : Platform) where
  open platform use {parse, host_str}

  abbrev is_onion : Option String → Bool
  is_onion none = false
  is_onion (some host) = ends_with host ".onion"

  unfoldable pub infer_network : String → String
  unfolding ends_with
  infer_network url = if is_onion (do host_str (← parse url)) then "tor" else "clearnet"

  -- The address as it is stored, and its origin; `none` where the loop goes on to the next.
  unfoldable pub admit : List String → String → Option (String × String)
  unfolding normalize_url origin_key url_matches_domain_list
  admit blacklist url = do
    normalized ← normalize_url platform url
    key ← origin_key platform normalized
    if url_matches_domain_list platform normalized blacklist then none else some (normalized, key)

  -- The row that is inserted.
  unfoldable pub new_job : EnqueueRequest → ℕ → String → String → String → Job
  unfolding infer_network extract_host priority_at as_str
  new_job r now id url key = record {
    id = id;
    owner = r.developer_id;
    url = url;
    origin = key;
    source = r.source;
    budget_id = r.budget_id;
    rule_id = r.rule_id;
    submitted_by = r.submitted_by;
    discovery_scope = as_str r.discovery_scope;
    discovery_host = or_else r.discovery_host (extract_host platform url);
    network = infer_network url;
    depth = r.depth;
    max_depth = r.max_depth;
    max_pages = max r.max_pages 1;
    same_origin_concurrency = max r.same_origin_concurrency 1;
    max_discovered_urls_per_page = max r.max_discovered_urls_per_page 1;
    attempt_count = 0;
    max_attempts = 3;
    priority = priority_at r.depth;
    discovered_at = now;
    requires_js = false;
    status = queued;
    claimed_by = none;
    claimed_at = none;
    lease_id = none;
    next_retry_at = none;
    finished_at = none;
    failure_kind = none;
    failure_message = none;
    fetched = record {
      final_url = none;
      content_type = none;
      http_status = none;
      discovered_urls_count = 0;
      accepted_document_id = none;
      llm_decision = none;
      llm_reason = none;
      llm_relevance_score = none;
      canonical_hint = none;
      canonical_source = none;
      site_profile_id = none;
      render_mode = "static";
      redirect_chain = [];
    };
  }

  abbrev pub superseded : EnqueueRequest → String → Job → Bool
  superseded r url j = same_url r.developer_id url j && is_done j.status

  -- A finished job for the address gives way where a revisit is allowed.
  unfoldable pub drop_finished : EnqueueRequest → String → List Job → List Job
  drop_finished r url jobs = if r.allow_revisit then delete_where (superseded r url) jobs else jobs

  -- The insertion, once the address is admitted.
  unfoldable pub insert_url : EnqueueRequest → ℕ → String → Queue → String × String → Queue
  unfolding new_job drop_finished is_new ensure_origin
  insert_url r now id q (url, key) =
      let jobs = drop_finished r url q.jobs in
      let job = new_job r now id url key in
      if is_new job jobs
      then record q {
        jobs = jobs ++ job ∷ [];
        origins = ensure_origin r.developer_id key now q.origins;
        accepted = q.accepted + 1;
        budget_used = q.budget_used + 1;
      }
      else record q { jobs = jobs }

  unfoldable pub offer_url : List String → EnqueueRequest → ℕ → String → Queue → String → Queue
  unfolding admit insert_url
  offer_url blacklist r now id q url = elim (admit blacklist url) [
    | none ↦ q
    | some found ↦ insert_url r now id q found
  ]

  -- `new_id n` is the id that the n-th address would be stored under.
  unfoldable pub enqueue_loop :
      List String → EnqueueRequest → ℕ → (ℕ → String) → ℕ → List String → Queue → Queue
  unfolding offer_url
  enqueue_loop blacklist r now new_id n [] q = q
  enqueue_loop blacklist r now new_id n (url ∷ urls) q =
      let next =
        enqueue_loop blacklist r now new_id (suc n) urls
          (offer_url blacklist r now (new_id n) q url) in
      if leb (max r.max_pages 1) q.budget_used then q else next

  unfoldable pub enqueue_urls :
      List String → EnqueueRequest → ℕ → (ℕ → String) → List Origin → List Job → Queue
  unfolding enqueue_loop
  enqueue_urls blacklist r now new_id origins jobs =
      enqueue_loop blacklist r now new_id 0 r.urls (record {
        jobs = jobs;
        origins = origins;
        accepted = 0;
        budget_used = count_where (in_budget r.developer_id r.budget_id) jobs;
      })
