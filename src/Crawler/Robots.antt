-- ===== src/Crawler/Robots.antt =====
-- services/crawler/src/fetch.rs: the cache of robots.txt files and the pauses between two requests to
-- an origin. Times are milliseconds. The reader of robots.txt comes from the crate texting_robots.
pub mod Known
pub mod Pauses
use Prim.Native.String
use find_verse.External.{Platform}
use find_verse.Common.Address.{origin_key}
use find_verse.Crawler.RobotsFile.{extract_crawl_delay, extract_sitemap_urls_from_robots}
use find_verse.Prelude.{
  ℕ, ◌+◌, ◌-◌, ◌*◌, ◌%◌, ◌^◌, List, [], ◌∷◌, String, Option, none, some, Bool, true, false, not,
  ◌&&◌, ltb, leb, unwrap_or, get, insert, if◌then◌else◌,
}

-- `texting_robots::Robot`, for the agent FindVerseCrawler.
pub record RobotReader : Type 1 where
  pub Robot : Type 0
  pub read : String → Option Robot
  pub allows : Robot → String → Bool

pub record RobotsSnapshot : Type 0 where
  pub allowed : Bool
  pub status : String
  pub crawl_delay_secs : Option ℕ
  pub sitemap_urls : List String

abbrev pub unrestricted_snapshot : RobotsSnapshot
unrestricted_snapshot = record {
  allowed = true;
  status = "unrestricted";
  crawl_delay_secs = none;
  sitemap_urls = [];
}

-- The answer to a request for robots.txt.
pub data RobotsAnswer : Type 0 where
  answered : (status : ℕ) (body : String) → RobotsAnswer
  unanswered : RobotsAnswer

module _ (reader : RobotReader) where
  open reader use {Robot, read, allows}

  pub data RobotStatus : Type 0 where
    fetched :
        (robot : Robot) (crawl_delay_secs : Option ℕ) (sitemap_urls : List String) → RobotStatus
    unrestricted : (crawl_delay_secs : Option ℕ) (sitemap_urls : List String) → RobotStatus
    temporarily_unavailable : RobotStatus

  pub record CachedRobot : Type 0 where
    pub status : RobotStatus
    pub cached_at : ℕ

  pub record WorkerState : Type 0 where
    pub robots_cache : List (String × CachedRobot)
    pub origin_last_request : List (String × ℕ)

  abbrev pub new_worker : WorkerState
  new_worker = record { robots_cache = []; origin_last_request = [] }

  abbrev pub is_unavailable : RobotStatus → Bool
  is_unavailable temporarily_unavailable = true
  is_unavailable _ = false

  unfoldable pub robots_snapshot : String → RobotStatus → RobotsSnapshot
  robots_snapshot url (fetched robot crawl_delay_secs sitemap_urls) = record {
    allowed = allows robot url;
    status = "fetched";
    crawl_delay_secs = crawl_delay_secs;
    sitemap_urls = sitemap_urls;
  }
  robots_snapshot url (unrestricted crawl_delay_secs sitemap_urls) = record {
    allowed = true;
    status = "unrestricted";
    crawl_delay_secs = crawl_delay_secs;
    sitemap_urls = sitemap_urls;
  }
  robots_snapshot url temporarily_unavailable = record {
    allowed = false;
    status = "temporarily_unavailable";
    crawl_delay_secs = none;
    sitemap_urls = [];
  }

  unfoldable pub fallback_robot_status : Bool → Option RobotStatus
  fallback_robot_status had_cached_rules =
      if had_cached_rules then none else some (unrestricted none [])

  unfoldable pub had_cached_rules : String → WorkerState → Bool
  had_cached_rules origin w = elim (get origin w.robots_cache) [
    | none ↦ false
    | some cached ↦ not (is_unavailable cached.status)
  ]

  -- An hour, or five minutes after a failure.
  abbrev pub time_to_live : RobotStatus → ℕ
  time_to_live temporarily_unavailable = 300000
  time_to_live _ = 3600000

  unfoldable pub needs_refresh : ℕ → String → WorkerState → Bool
  needs_refresh now origin w = elim (get origin w.robots_cache) [
    | none ↦ true
    | some cached ↦ ltb (time_to_live cached.status) (now - cached.cached_at)
  ]

  module _ (platform : Platform) where
    unfoldable pub read_body : String → RobotStatus
    unfolding extract_crawl_delay extract_sitemap_urls_from_robots
    read_body body =
        let delay = extract_crawl_delay platform body in
        let sitemaps = extract_sitemap_urls_from_robots platform body in
        elim (read body) [
          | some robot ↦ fetched robot delay sitemaps
          | none ↦ unrestricted delay sitemaps
        ]

    unfoldable pub fetched_status : Bool → RobotsAnswer → Option RobotStatus
    unfolding read_body fallback_robot_status
    fetched_status had unanswered = fallback_robot_status had
    fetched_status had (answered status body) =
        if leb 200 status && ltb status 300
        then some (read_body body)
        else if leb 400 status && ltb status 500
        then some (unrestricted none [])
        else fallback_robot_status had

    -- Rules that are cached are good for another while.
    unfoldable pub keep_rules : ℕ → String → WorkerState → Option CachedRobot → WorkerState
    keep_rules now origin w none = w
    keep_rules now origin w (some cached) = record w {
      robots_cache = insert origin (record cached { cached_at = now }) w.robots_cache;
    }

    -- What is kept of an answer, in the state that the lock finds then.
    unfoldable pub store_status : ℕ → String → Bool → Option RobotStatus → WorkerState → WorkerState
    unfolding keep_rules
    store_status now origin had (some status) w = record w {
      robots_cache = insert origin (record { status = status; cached_at = now }) w.robots_cache;
    }
    store_status now origin true none w = keep_rules now origin w (get origin w.robots_cache)
    store_status now origin false none w = record w {
      robots_cache =
          insert origin (record { status = temporarily_unavailable; cached_at = now })
            w.robots_cache;
    }

    -- What another task writes in one go: the answer to its request for a robots.txt, where `had` is what
    -- it read before, or the time of a request to an origin.
    pub data TaskWrite : Type 0 where
      stored : (now : ℕ) (origin : String) (had : Bool) (answer : RobotsAnswer) → TaskWrite
      requested : (origin : String) (at : ℕ) → TaskWrite

    unfoldable pub task_write : TaskWrite → WorkerState → WorkerState
    unfolding store_status fetched_status
    task_write (stored now origin had answer) w =
        store_status now origin had (fetched_status had answer) w
    task_write (requested origin at) w = record w {
      origin_last_request = insert origin at w.origin_last_request;
    }

    unfoldable pub task_writes : List TaskWrite → WorkerState → WorkerState
    unfolding task_write
    task_writes [] w = w
    task_writes (x ∷ xs) w = task_writes xs (task_write x w)

    -- The lock is given up during the request: `meanwhile` is what the other tasks do to the state.
    unfoldable pub refresh :
        ℕ
        → String
        → RobotsAnswer
        → (meanwhile : WorkerState → WorkerState) → WorkerState
        → WorkerState
    unfolding had_cached_rules needs_refresh fetched_status store_status
    refresh now origin answer meanwhile w =
        let had = had_cached_rules origin w in
        if needs_refresh now origin w
        then store_status now origin had (fetched_status had answer) (meanwhile w)
        else w

    unfoldable pub snapshot_at : String → Option CachedRobot → RobotsSnapshot
    unfolding robots_snapshot
    snapshot_at url none = unrestricted_snapshot
    snapshot_at url (some cached) = robots_snapshot url cached.status

    unfoldable pub inspect_origin :
        ℕ
        → String
        → RobotsAnswer
        → (meanwhile : WorkerState → WorkerState) → WorkerState
        → Option String
        → WorkerState × RobotsSnapshot
    unfolding refresh snapshot_at
    inspect_origin now url answer meanwhile w none = (w, unrestricted_snapshot)
    inspect_origin now url answer meanwhile w (some origin) =
        let w' = refresh now origin answer meanwhile w in
        (w', snapshot_at url (get origin w'.robots_cache))

    unfoldable pub inspect_robots :
        ℕ
        → String
        → RobotsAnswer
        → (meanwhile : WorkerState → WorkerState) → WorkerState
        → WorkerState × RobotsSnapshot
    unfolding origin_key inspect_origin
    inspect_robots now url answer meanwhile w =
        inspect_origin now url answer meanwhile w (origin_key platform url)

    unfoldable pub check_robots_allowed :
        ℕ → String → RobotsAnswer → (meanwhile : WorkerState → WorkerState) → WorkerState → Bool
    unfolding inspect_robots
    check_robots_allowed now url answer meanwhile w =
        (inspect_robots now url answer meanwhile w).1.allowed

  -- The delay of a rule in seconds; one without rules.
  abbrev pub delay_of_status : RobotStatus → Option ℕ
  delay_of_status (fetched robot delay sitemaps) = delay
  delay_of_status (unrestricted delay sitemaps) = delay
  delay_of_status temporarily_unavailable = none

  unfoldable pub crawl_delay : String → WorkerState → ℕ
  crawl_delay origin w = elim (get origin w.robots_cache) [
    | none ↦ 1
    | some cached ↦ unwrap_or (delay_of_status cached.status) 1
  ]

  -- How long a request to the origin has to wait at `now`, with a jitter that is drawn for it; the
  -- interval is a `u64`.
  unfoldable pub wait_at : (now jitter_ms : ℕ) → String → WorkerState → ℕ
  unfolding crawl_delay
  wait_at now jitter_ms origin w = elim (get origin w.origin_last_request) [
    | none ↦ 0
    | some last ↦ (crawl_delay origin w * 1000 + jitter_ms) % 2 ^ 64 - (now - last)
  ]

  -- The time at which the request goes out, which is kept; a sleep may last `late` longer.
  unfoldable pub rate_limit_origin :
      (now jitter_ms late : ℕ) → String → WorkerState → WorkerState × ℕ
  unfolding wait_at
  rate_limit_origin now jitter_ms late origin w =
      let at = now + wait_at now jitter_ms origin w + late in
      (record w { origin_last_request = insert origin at w.origin_last_request }, at)
