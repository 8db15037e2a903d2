-- ===== src/Crawler/Pool/Api.antt =====
-- services/crawler/src/worker.rs against services/api/src/crawl/frontier.rs: a crawler whose claims are
-- answered by `claim_jobs` on the tables of the API.
use find_verse.Crawl.Rows.{Job, Origin}
use find_verse.Crawl.Table.{HasUniqueIds}
use find_verse.Crawl.Frontier.{claim_jobs, active_count, Ranked}
use find_verse.Crawl.Frontier.Concurrency.{IsBounded}
use find_verse.Crawler.Pool.{
  RuntimeConcurrencyConfig, Server, Pool, ClaimEnd, Round, go_on, ends, receive, may_claim,
  claim_batch_size, claim_rounds,
}
use find_verse.Prelude.{
  ℕ, zero, suc, ◌+◌, ◌≤◌, max, List, map, String, some, Bool, false, All, if_elim,
}

module _ (server : Server) (once : Bool) (runtime : RuntimeConcurrencyConfig) where
  open server use {World, claim}

  -- What every claim keeps true of the world, the whole inner loop keeps.
  pub claim_rounds_keep {κ} :
      (P : World → Type κ)
      → ((n : ℕ) (w : World) → P w → P (claim n w).0)
      → (fuel : ℕ) (w : World) (p : Pool) → P w
      → P (claim_rounds server once runtime fuel w p).0
  unfolding claim_rounds
  claim_rounds_keep P keep zero w p h = h
  claim_rounds_keep P keep (suc fuel) w p h =
      let n = max (claim_batch_size server once runtime p) 1 in
      let w' = (claim n w).0 in
      let taken = receive p (claim n w).1 in
      let now = keep n w h in
      let later = claim_rounds_keep P keep fuel w' taken.0 now in
      if_elim (λ (out : World × Pool × _). P out.0) (may_claim server once runtime w p)
        (λ _.
          elim (taken.1)
            as (λ (r : Round).
              P
                (elim r as (λ (_ : Round). World × Pool × ClaimEnd) [
                  | go_on ↦ claim_rounds server once runtime fuel w' taken.0
                  | ends how ↦ (w', taken.0, how)
                ]).0) [ go_on ↦ later | ends how ↦ now ])
        (λ _. h)

-- The tables that claims work on, with the number of leases given out.
pub record ClaimTables : Type 0 where
  pub origins : List Origin
  pub jobs : List Job
  pub leases : ℕ

module _ (owner crawler_id : String) (has_js : Bool) (now : ℕ) (new_lease : ℕ → String) where
  -- The API as a crawler sees it: every claim draws a new lease, and none fails.
  abbrev pub api_server : Server
  api_server = record {
    World = ClaimTables;
    claim = λ n q.
        let out = claim_jobs owner crawler_id (new_lease q.leases) n has_js now q.origins q.jobs in
        (
          record { origins = out.1; jobs = out.0; leases = q.leases + 1 },
          some (record {
            lease_id = some (new_lease q.leases);
            jobs = map (λ (r : Ranked). r.job.id) out.2;
          }),
        );
    shutdown_requested = λ q. false;
  }

  -- The rows of an origin that crawlers hold are within `bound`.
  pub record IsPolite (key : String) (bound : ℕ) (q : ClaimTables) : Type 0 where
    pub ids : HasUniqueIds q.jobs
    pub slots : All (IsBounded owner key bound) q.jobs
    pub held : active_count owner key q.jobs ≤ bound
