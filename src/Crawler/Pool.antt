-- ===== src/Crawler/Pool.antt =====
-- services/crawler/src/worker.rs: how `run_worker` fills its pool of jobs. The API and the flag of the
-- shutdown are a world that the calls change; a job in flight is its id.
pub mod Bounds
pub mod Api
use find_verse.Prelude.{
  ℕ, zero, suc, ◌-◌, min, max, List, [], ◌∷◌, ◌++◌, String, Option, none, some, Bool, true, false,
  ◌&&◌, ◌||◌, leb, length, is_empty, is_none, if◌then◌else◌,
}

pub record RuntimeConcurrencyConfig : Type 0 where
  pub worker_concurrency : ℕ
  pub js_render_concurrency : ℕ
  pub max_jobs : ℕ

-- What a configuration or a heartbeat asks for, at least one of each.
abbrev pub runtime_of : (concurrency js_render_concurrency max_jobs : ℕ) → RuntimeConcurrencyConfig
runtime_of concurrency js_render_concurrency max_jobs = record {
  worker_concurrency = max concurrency 1;
  js_render_concurrency = max js_render_concurrency 1;
  max_jobs = max max_jobs 1;
}

pub record ClaimResponse : Type 0 where
  pub lease_id : Option String
  pub jobs : List String

pub record Server : Type 1 where
  pub World : Type 0
  -- The answer to a claim; `none` when the request fails.
  pub claim : (max_jobs : ℕ) → World → World × Option ClaimResponse
  pub shutdown_requested : World → Bool

pub record Pool : Type 0 where
  pub in_flight : List String
  pub claimed_once : Bool
  pub received_empty_claim : Bool

pub data ClaimEnd : Type 0 where
  settled claim_failed out_of_fuel : ClaimEnd

pub data Round : Type 0 where
  go_on : Round
  ends : ClaimEnd → Round

-- An answer with jobs must name its lease; each job is processed at once.
unfoldable pub receive_jobs : Pool → (lease_id : Option String) → List String → Pool × Round
receive_jobs p lease_id [] = (record p { received_empty_claim = true }, ends settled)
receive_jobs p none (j ∷ js) = (p, ends claim_failed)
receive_jobs p (some lease_id) (j ∷ js) =
    (record p { in_flight = p.in_flight ++ j ∷ js; claimed_once = true }, go_on)

unfoldable pub receive : Pool → Option ClaimResponse → Pool × Round
unfolding receive_jobs
receive p none = (p, ends claim_failed)
receive p (some answer) = receive_jobs p answer.lease_id answer.jobs

-- What the loop does after its claims.
pub data Action : Type 0 where
  stop wait again join_next : Action

module _ (server : Server) (once : Bool) (runtime : RuntimeConcurrencyConfig) where
  open server use {World, claim, shutdown_requested}

  abbrev pub claim_batch_size : Pool → ℕ
  claim_batch_size p =
      max (min runtime.max_jobs (runtime.worker_concurrency - length p.in_flight)) 1

  abbrev pub may_claim : World → Pool → Bool
  may_claim w p =
      if shutdown_requested w
      then false
      else if once && p.claimed_once
      then false
      else if leb runtime.worker_concurrency (length p.in_flight)
      then false
      else true

  -- The inner loop: claims until the pool is full, or a claim brings nothing. `fuel` bounds the rounds.
  unfoldable pub claim_rounds : ℕ → World → Pool → World × Pool × ClaimEnd
  unfolding receive
  claim_rounds zero w p = (w, p, out_of_fuel)
  claim_rounds (suc fuel) w p =
      let out = claim (max (claim_batch_size p) 1) w in
      let taken = receive p out.1 in
      let rest = claim_rounds fuel out.0 taken.0 in
      if may_claim w p
      then elim taken.1 [ go_on ↦ rest | ends how ↦ (out.0, taken.0, how) ]
      else (w, p, settled)

  -- A round for each free place and one to see that none is left.
  unfoldable pub claim_turn : World → Pool → World × Pool × ClaimEnd
  unfolding claim_rounds
  claim_turn w p =
      claim_rounds (suc (runtime.worker_concurrency - length p.in_flight)) w
        (record p { received_empty_claim = false })

  unfoldable pub next_action : World → Pool → Action
  next_action w p =
      if is_empty p.in_flight
      then if shutdown_requested w
        then stop
        else if once && p.claimed_once
        then stop
        else if once && p.received_empty_claim
        then stop
        else if p.received_empty_claim
        then wait
        else again
      else join_next
