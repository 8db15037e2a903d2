-- ===== src/Crawler/Robots/Pauses.antt =====
-- The pauses that services/crawler/src/fetch.rs keeps between requests to one origin.
use find_verse.Crawler.Robots.{RobotReader, WorkerState, crawl_delay, wait_at, rate_limit_origin}
use find_verse.Prelude.{
  ℕ, ◌+◌, ◌-◌, ◌*◌, ◌%◌, ◌^◌, ◌≤◌, ◌<◌, List, [], ◌∷◌, String, some, ◌≡◌, get, get-insert, All,
  arith,
}

pause_lem :
    (delay jitter_ms last gap late : ℕ)
    → delay * 1000 + 1200 ≤ 2 ^ 64
    → jitter_ms < 1200
    → 800 ≤ jitter_ms
    → last + (delay * 1000 + 800)
      ≤ last + gap + ((delay * 1000 + jitter_ms) % 2 ^ 64 - (last + gap - last)) + late
pause_lem delay jitter_ms last gap late fits below above = omega arith

module _ (reader : RobotReader) (origin : String) where
  -- A request that comes some time after the last one went out, with its jitter and the delay of its
  -- timer.
  pub record Request : Type 0 where
    pub gap : ℕ
    pub jitter_ms : ℕ
    pub late : ℕ

  -- The times at which requests go out that come one after another.
  abbrev pub departures : List Request → ℕ → WorkerState reader → List ℕ
  departures [] last w = []
  departures (r ∷ rs) last w =
      let out = rate_limit_origin reader (last + r.gap) r.jitter_ms r.late origin w in
      out.1 ∷ departures rs out.1 out.0

  -- Each departure is at least `interval` after the one before.
  abbrev pub IsSpaced : ℕ → ℕ → List ℕ → Type 0
  IsSpaced interval last [] = Unit
  IsSpaced interval last (t ∷ ts) = (last + interval ≤ t) × IsSpaced interval t ts

  -- Requests to an origin that come one after another, after one at the time `last`, each with a jitter from 800 to 1199
  -- milliseconds, go out at least the crawl delay and eight tenths of a second apart, where the crawl
  -- delay is so short that its milliseconds and the jitter fit into 64 bits; the delay is the one of
  -- the cached rules, or one second.
  pub departures-IsSpaced :
      (rs : List Request) (last : ℕ) (w : WorkerState reader)
      → crawl_delay reader origin w * 1000 + 1200 ≤ 2 ^ 64
      → All (λ r. (800 ≤ r.jitter_ms) × (r.jitter_ms < 1200)) rs
      → get origin w.origin_last_request ≡ some last
      → IsSpaced (crawl_delay reader origin w * 1000 + 800) last (departures rs last w)
  unfolding rate_limit_origin wait_at
  departures-IsSpaced [] last w fits j e = tt
  departures-IsSpaced (r ∷ rs) last w fits j e =
      let out = rate_limit_origin reader (last + r.gap) r.jitter_ms r.late origin w in
      (
        rw (wait_at, e)
            (pause_lem (crawl_delay reader origin w) r.jitter_ms last r.gap r.late fits j.0.1
              j.0.0),
        departures-IsSpaced rs out.1 out.0 fits j.1 (get-insert origin out.1 w.origin_last_request),
      )
