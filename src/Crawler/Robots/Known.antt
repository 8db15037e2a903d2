-- ===== src/Crawler/Robots/Known.antt =====
-- What the cache of robots.txt files in services/crawler/src/fetch.rs answers.
use find_verse.External.{Platform}
use find_verse.Common.Address.{origin_key}
use find_verse.Crawler.Robots.{
  RobotReader, RobotsSnapshot, RobotsAnswer, RobotStatus, fetched, unrestricted,
  temporarily_unavailable, CachedRobot, WorkerState, is_unavailable, robots_snapshot,
  fallback_robot_status, had_cached_rules, needs_refresh, read_body, fetched_status, keep_rules,
  store_status, refresh, snapshot_at, inspect_origin, inspect_robots, TaskWrite, stored, requested,
  task_write, task_writes, new_worker,
}
use find_verse.Prelude.{
  ℕ, List, [], ◌∷◌, String, Option, none, some, Bool, true, false, ◌≡◌, refl, All, All-remove,
  All-get, OnSome, get, get-insert, is_some, if_elim, arith,
}

module _ (reader : RobotReader) (platform : Platform) where
  abbrev pub IsKnown : CachedRobot reader → Type 0
  IsKnown cached = is_unavailable reader cached.status ≡ false

  -- No file of the cache is marked as unavailable.
  abbrev pub KnowsAll : WorkerState reader → Type 0
  KnowsAll w = All (λ r. IsKnown r.1) w.robots_cache

  -- A status that an answer gives is known, and one is missing only where rules are cached.
  fetched_status_known :
      (had : Bool) (answer : RobotsAnswer)
      → OnSome (λ s. is_unavailable reader s ≡ false) (fetched_status reader platform had answer)
        × (fetched_status reader platform had answer ≡ none → had ≡ true)
  unfolding fetched_status fallback_robot_status read_body
  fetched_status_known had answer = ground arith

  keep_rules-KnowsAll :
      (now : ℕ) (origin : String) (w : WorkerState reader) (cached : Option (CachedRobot reader))
      → OnSome IsKnown cached
      → KnowsAll w
      → KnowsAll (keep_rules reader platform now origin w cached)
  unfolding keep_rules
  keep_rules-KnowsAll now origin w none k h = h
  keep_rules-KnowsAll now origin w (some cached) k h =
      (k, All-remove IsKnown origin w.robots_cache h)

  store_status-KnowsAll :
      (now : ℕ) (origin : String) (had : Bool) (status : Option (RobotStatus reader))
      (w : WorkerState reader)
      → OnSome (λ s. is_unavailable reader s ≡ false) status
      → (status ≡ none → had ≡ true)
      → KnowsAll w
      → KnowsAll (store_status reader platform now origin had status w)
  unfolding store_status
  store_status-KnowsAll now origin had (some status) w k e h =
      (k, All-remove IsKnown origin w.robots_cache h)
  store_status-KnowsAll now origin false none w k e h = ground (arith, e)
  store_status-KnowsAll now origin true none w k e h =
      keep_rules-KnowsAll now origin w (get origin w.robots_cache)
        (All-get IsKnown origin w.robots_cache h) h

  refresh-KnowsAll :
      (now : ℕ) (origin : String) (answer : RobotsAnswer)
      (meanwhile : WorkerState reader → WorkerState reader) (w : WorkerState reader)
      → ((v : WorkerState reader) → KnowsAll v → KnowsAll (meanwhile v))
      → KnowsAll w
      → KnowsAll (refresh reader platform now origin answer meanwhile w)
  unfolding refresh
  refresh-KnowsAll now origin answer meanwhile w keep h =
      let had = had_cached_rules reader origin w in
      let known = fetched_status_known had answer in
      if_elim KnowsAll (needs_refresh reader now origin w)
        (λ _.
          store_status-KnowsAll now origin had (fetched_status reader platform had answer)
            (meanwhile w) known.0 known.1 (keep w h))
        (λ _. h)

  -- A snapshot forbids an address only by the rules of a file that was fetched.
  abbrev pub IsByRules : RobotsSnapshot → Type 0
  IsByRules s = s.allowed ≡ false → s.status ≡ "fetched"

  snapshot_at-IsByRules :
      (url : String) (cached : Option (CachedRobot reader))
      → OnSome IsKnown cached
      → IsByRules (snapshot_at reader platform url cached)
  unfolding snapshot_at robots_snapshot
  snapshot_at-IsByRules url none k = ground arith
  snapshot_at-IsByRules url (some cached) k = by_rules cached.status k
    where
      by_rules :
          (s : RobotStatus reader)
          → is_unavailable reader s ≡ false
          → IsByRules (robots_snapshot reader url s)
      by_rules (fetched robot delay sitemaps) k = λ e. refl
      by_rules (unrestricted delay sitemaps) k = λ e. ground (arith, e)
      by_rules temporarily_unavailable k = ground (arith, k)

  inspect_origin-KnowsAll :
      (now : ℕ) (url : String) (answer : RobotsAnswer)
      (meanwhile : WorkerState reader → WorkerState reader) (w : WorkerState reader)
      (origin : Option String)
      → ((v : WorkerState reader) → KnowsAll v → KnowsAll (meanwhile v))
      → KnowsAll w
      → let out = inspect_origin reader platform now url answer meanwhile w origin in
        KnowsAll out.0 × IsByRules out.1
  unfolding inspect_origin
  inspect_origin-KnowsAll now url answer meanwhile w none keep h = (h, λ e. ground (arith, e))
  inspect_origin-KnowsAll now url answer meanwhile w (some origin) keep h =
      let w' = refresh reader platform now origin answer meanwhile w in
      let kept = refresh-KnowsAll now origin answer meanwhile w keep h in
      (
        kept,
        snapshot_at-IsByRules url (get origin w'.robots_cache)
            (All-get IsKnown origin w'.robots_cache kept),
      )

  task_writes-KnowsAll :
      (xs : List (TaskWrite reader platform)) (w : WorkerState reader)
      → KnowsAll w
      → KnowsAll (task_writes reader platform xs w)
  unfolding task_writes task_write
  task_writes-KnowsAll [] w h = h
  task_writes-KnowsAll (stored now origin had answer ∷ xs) w h =
      let known = fetched_status_known had answer in
      task_writes-KnowsAll xs _ (
        store_status-KnowsAll now origin had (fetched_status reader platform had answer) w known.0
          known.1 h)
  task_writes-KnowsAll (requested origin at ∷ xs) w h = task_writes-KnowsAll xs _ h

  -- From an empty cache on, whatever the sites answer to any tasks before and during a request for
  -- robots.txt, and whatever the answer to it: no file is kept as unavailable, and an address is
  -- forbidden only by the rules of a file that was fetched.
  pub inspect_robots-KnowsAll :
      (now : ℕ) (url : String) (answer : RobotsAnswer)
      (before during : List (TaskWrite reader platform))
      → let out =
          inspect_robots reader platform now url answer
            (task_writes reader platform during)
            (task_writes reader platform before (new_worker reader)) in
        KnowsAll out.0 × IsByRules out.1
  unfolding inspect_robots
  inspect_robots-KnowsAll now url answer before during =
      inspect_origin-KnowsAll now url answer (task_writes reader platform during)
        (task_writes reader platform before (new_worker reader)) (origin_key platform url)
        (task_writes-KnowsAll during) (task_writes-KnowsAll before (new_worker reader) tt)

  had_rules :
      (origin : String) (w : WorkerState reader) (cached : CachedRobot reader)
      → get origin w.robots_cache ≡ some cached
      → is_unavailable reader cached.status ≡ false
      → had_cached_rules reader origin w ≡ true
  unfolding had_cached_rules
  had_rules origin w cached e k = rw (had_cached_rules, e, k) refl

  abbrev pub HasStatus : RobotStatus reader → Option (CachedRobot reader) → Type 0
  HasStatus status cached = OnSome (λ c. c.status ≡ status) cached × (is_some cached ≡ true)

  kept_rules :
      (now : ℕ) (origin : String) (w : WorkerState reader) (cached : CachedRobot reader)
      → HasStatus cached.status
          (get origin (keep_rules reader platform now origin w (some cached)).robots_cache)
  unfolding keep_rules
  kept_rules now origin w cached =
      rw (get-insert origin (record cached { cached_at = now }) w.robots_cache) (refl, refl)

  -- When a site fails to give a robots.txt that is cached, the cached rules go on to hold.
  pub refresh-HasStatus :
      (now : ℕ) (origin : String) (answer : RobotsAnswer) (w : WorkerState reader)
      (cached : CachedRobot reader)
      → get origin w.robots_cache ≡ some cached
      → is_unavailable reader cached.status ≡ false
      → fetched_status reader platform true answer ≡ none
      → HasStatus cached.status
          (get origin (refresh reader platform now origin answer (λ v. v) w).robots_cache)
  unfolding refresh store_status
  refresh-HasStatus now origin answer w cached e k f =
      if_elim (λ (v : WorkerState reader). HasStatus cached.status (get origin v.robots_cache))
        (needs_refresh reader now origin w)
        (λ _. rw (had_rules origin w cached e k, f, e) (kept_rules now origin w cached))
        (λ _. rw e (refl, refl))
