-- ===== src/Crawl/Apply/Origins.antt =====
-- services/api/src/crawler.rs: `origin_ready_at` and `update_origin_after_report`, which keep the
-- crawler polite.
use find_verse.Crawl.Rows.{Origin, holds}
use find_verse.Crawl.Outcome.{CrawlResult}
use find_verse.Prelude.{
  ℕ, ◌+◌, ◌-◌, max, min, List, ◌∷◌, String, Option, none, some, Bool, ◌&&◌, ◌||◌, str_eq, leb, ◌==◌,
  any, unwrap_or, or_else, update_where, if◌then◌else◌,
}

unfoldable pub extra_backoff_secs : CrawlResult → ℕ
extra_backoff_secs r =
    let retry_after = unwrap_or r.retry_after_secs 0 in
    if r.status_code == 429
    then max retry_after 30
    else if leb 500 r.status_code && leb r.status_code 599
    then max retry_after 60
    else if holds r.error_kind "network_error"
    then 45
    else if holds r.error_kind "robots"
    then 300
    else 0

abbrev pub i64_max : ℕ
i64_max = 9223372036854775807

unfoldable pub wait_secs : CrawlResult → ℕ
unfolding extra_backoff_secs
wait_secs r =
    max (max (max (unwrap_or r.applied_crawl_delay_secs 1) 1) (unwrap_or r.retry_after_secs 0))
      (extra_backoff_secs r)

unfoldable pub origin_ready_at : ℕ → CrawlResult → ℕ
unfolding wait_secs
origin_ready_at now r = now + min (wait_secs r) i64_max

-- The report speaks of a server in trouble.
unfoldable pub failure_like : CrawlResult → Bool
failure_like r =
    r.status_code == 429
    || leb 500 r.status_code && leb r.status_code 599
    || holds r.error_kind "network_error"

abbrev i32_max : ℕ
i32_max = 2147483647

abbrev capped : Option ℕ → Option ℕ
capped none = none
capped (some secs) = some (min secs i32_max)

abbrev pub is_origin : String → String → Origin → Bool
is_origin owner key o = str_eq o.owner owner && str_eq o.key key

-- The row that is inserted where the origin is new.
unfoldable pub reported_origin : String → String → CrawlResult → ℕ → Origin
unfolding origin_ready_at failure_like
reported_origin owner key r now = record {
  owner = owner;
  key = key;
  robots_status = unwrap_or r.robots_status "unknown";
  crawl_delay_secs = capped r.applied_crawl_delay_secs;
  next_allowed_at = origin_ready_at now r;
  in_flight_count = 0;
  last_fetch_status = some r.status_code;
  consecutive_failures = if failure_like r then 1 else 0;
  robots_sitemaps = r.robots_sitemaps;
  updated_at = now;
}

-- `on conflict do update`; `released` is 1 for the origin that the job was claimed from.
unfoldable pub touch_origin : ℕ → CrawlResult → ℕ → Origin → Origin
unfolding origin_ready_at failure_like
touch_origin released r now o = record o {
  robots_status = unwrap_or r.robots_status "unknown";
  crawl_delay_secs = or_else (capped r.applied_crawl_delay_secs) o.crawl_delay_secs;
  next_allowed_at = max o.next_allowed_at (origin_ready_at now r);
  in_flight_count = o.in_flight_count - released;
  last_fetch_status = some r.status_code;
  consecutive_failures = if failure_like r then o.consecutive_failures + 1 else 0;
  robots_sitemaps = r.robots_sitemaps;
  updated_at = now;
}

unfoldable pub upsert_origin : String → String → ℕ → CrawlResult → ℕ → List Origin → List Origin
unfolding reported_origin touch_origin
upsert_origin owner key released r now origins =
    if any (is_origin owner key) origins
    then update_where (is_origin owner key) (touch_origin released r now) origins
    else reported_origin owner key r now ∷ origins

-- `final_key` is the origin of the address that the redirects led to.
unfoldable pub update_origin_after_report :
    String → String → Option String → CrawlResult → ℕ → List Origin → List Origin
unfolding upsert_origin
update_origin_after_report owner key final_key r now origins =
    let first = upsert_origin owner key 1 r now origins in
    elim final_key [
      | none ↦ first
      | some final ↦ if str_eq final key then first else upsert_origin owner final 0 r now first
    ]

-- `greatest(in_flight_count - 1, 0)`
unfoldable pub release_slot : String → String → ℕ → List Origin → List Origin
release_slot owner key now origins =
    update_where (is_origin owner key)
      (λ o. record o { in_flight_count = o.in_flight_count - 1; updated_at = now }) origins
