-- ===== src/Crawler/Pool/Bounds.antt =====
-- The size of the pool of services/crawler/src/worker.rs.
use find_verse.Crawler.Pool.{
  RuntimeConcurrencyConfig, ClaimResponse, Server, Pool, out_of_fuel, claim_batch_size, go_on,
  receive_jobs, receive, claim_rounds, claim_turn,
}
use find_verse.Prelude.{
  ℕ, zero, suc, ◌+◌, ◌-◌, ◌≤◌, ◌<◌, max, List, [], ◌∷◌, String, Option, none, some, Bool, false,
  ◌≡◌, ◌≢◌, length, length-append, arith,
}

-- No answer has more jobs than were asked for.
abbrev pub count_of : Option ClaimResponse → ℕ
count_of none = 0
count_of (some answer) = length answer.jobs

abbrev pub IsCapped : Server → Type 0
IsCapped server = (n : ℕ) (w : server.World) → count_of (server.claim n w).1 ≤ max n 1

jobs_received :
    (p : Pool) (lease_id : Option String) (jobs : List String)
    → let out = receive_jobs p lease_id jobs in
      (length out.0.in_flight ≤ length p.in_flight + length jobs)
      × (out.1 ≡ go_on → length p.in_flight < length out.0.in_flight)
unfolding receive_jobs
jobs_received p lease_id [] = ground arith
jobs_received p none (j ∷ js) = ground arith
jobs_received p (some lease_id) (j ∷ js) = ground (arith, length-append p.in_flight (j ∷ js))

-- An answer adds its jobs at most, and one job at least when the loop goes on.
received :
    (p : Pool) (o : Option ClaimResponse)
    → let out = receive p o in
      (length out.0.in_flight ≤ length p.in_flight + count_of o)
      × (out.1 ≡ go_on → length p.in_flight < length out.0.in_flight)
unfolding receive
received p none = ground arith
received p (some answer) = jobs_received p answer.lease_id answer.jobs

module _ (server : Server) (once : Bool) (runtime : RuntimeConcurrencyConfig) where
  open server use {World, claim}

  abbrev answered : World → Pool → World × Option ClaimResponse
  answered w p = claim (max (claim_batch_size server once runtime p) 1) w

  rounds_bound :
      IsCapped server
      → (fuel : ℕ) (w : World) (p : Pool)
      → length (claim_rounds server once runtime fuel w p).1.in_flight
        ≤ max (length p.in_flight) runtime.worker_concurrency
  unfolding claim_rounds
  rounds_bound cap zero w p = ground arith
  rounds_bound cap (suc fuel) w p =
      let out = answered w p in
      let taken = receive p out.1 in
      let grown = (received p out.1).0 in
      let few = cap (max (claim_batch_size server once runtime p) 1) w in
      let ih = rounds_bound cap fuel out.0 taken.0 in ground (arith, grown, few, ih)

  rounds_end :
      (fuel : ℕ) (w : World) (p : Pool)
      → runtime.worker_concurrency - length p.in_flight < fuel
      → (claim_rounds server once runtime fuel w p).2 ≢ out_of_fuel
  unfolding claim_rounds receive receive_jobs
  rounds_end zero w p h = absurd (omega arith)
  rounds_end (suc fuel) w p h =
      let out = answered w p in
      let taken = receive p out.1 in
      let grown = (received p out.1).1 in
      let ih = rounds_end fuel out.0 taken.0 in ground (arith, grown, ih)

  -- The inner loop always ends by itself, whatever the server answers and however full the pool is: by
  -- its test, by a claim that brings nothing, or by an error.
  pub claim_turn_ends :
      (w : World) (p : Pool) → (claim_turn server once runtime w p).2 ≢ out_of_fuel
  unfolding claim_turn
  claim_turn_ends w p =
      rounds_end (suc (runtime.worker_concurrency - length p.in_flight)) w
        (record p { received_empty_claim = false }) (omega arith)

  -- Where no answer has more jobs than were asked for, the inner loop leaves no more jobs in flight than
  -- the configuration allows, or than there were before.
  pub claim_turn-le :
      IsCapped server
      → (w : World) (p : Pool)
      → length (claim_turn server once runtime w p).1.in_flight
        ≤ max (length p.in_flight) runtime.worker_concurrency
  unfolding claim_turn
  claim_turn-le cap w p =
      rounds_bound cap (suc (runtime.worker_concurrency - length p.in_flight)) w
        (record p { received_empty_claim = false })
