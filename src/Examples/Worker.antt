-- ===== src/Examples/Worker.antt =====
-- The theorems on the crawler's updates and on its pool of jobs, applied.
use find_verse.Crawler.Update.{
  new_state, Instruction, clean_version, apply_server_instruction, heartbeats, RuntimeState,
  mark_downloading, update_failed, looping, start, beat, choose, download, fail, mark_failed,
  mark_restarting, pending_target,
}
use find_verse.Crawler.Update.Coherent.{IsCoherent, PhaseFits, UpdateReach-IsCoherent}
use find_verse.Crawler.Update.Retry.{mark_failed-pending_target, mark_restarting-pending_target}
use find_verse.Crawler.Pool.{Server, Pool, runtime_of, claim_turn, out_of_fuel}
use find_verse.Crawler.Pool.Bounds.{claim_turn_ends, claim_turn-le}
use find_verse.Crawler.Pool.Api.{ClaimTables}
use find_verse.Examples.Data.{two_jobs, host_origin, tally_id}
use find_verse.Prelude.{ℕ, suc, ◌≤◌, [], ◌∷◌, some, none, false, ◌≡◌, ◌≢◌, refl, length, arith}

abbrev wants : Instruction
wants = record { desired_version = some " v2 "; update_status = "failed" }

abbrev forces : Instruction
forces = record { desired_version = some "v2"; update_status = "pending" }

abbrev wanting : RuntimeState
unfolding apply_server_instruction
wanting = apply_server_instruction wants (new_state "v1")

-- A heartbeat comes during the download, which then fails.
UpdateReach-IsCoherent_example :
    IsCoherent (
      update_failed "v2" "no space"
        (apply_server_instruction forces (mark_downloading "v2" wanting)))
    × PhaseFits looping (
        update_failed "v2" "no space"
          (apply_server_instruction forces (mark_downloading "v2" wanting)))
unfolding pending_target clean_version wanting
UpdateReach-IsCoherent_example =
    UpdateReach-IsCoherent {version = "v1"}
      (fail "no space" (beat forces (download (choose "v2" refl (beat wants start)))))

mark_failed-pending_target_example :
    let later = heartbeats (wants ∷ wants ∷ []) (mark_failed "v2" "no space" (new_state "v1")) in
    (pending_target later ≡ none)
    × (pending_target (apply_server_instruction forces later) ≡ some "v2")
unfolding clean_version
mark_failed-pending_target_example =
    mark_failed-pending_target "v2" "no space" (wants ∷ wants ∷ []) forces (new_state "v1") refl
      ((refl, refl), ((refl, refl), tt)) refl refl

mark_restarting-pending_target_example :
    pending_target (
      heartbeats
        (record { desired_version = some "v3"; update_status = "pending" } ∷ [])
        (mark_restarting "v2" (new_state "v1")))
    ≡ none
mark_restarting-pending_target_example =
    mark_restarting-pending_target "v2"
      (record { desired_version = some "v3"; update_status = "pending" } ∷ []) (new_state "v1") refl

-- A server with one job for every claim.
abbrev one_by_one : Server
one_by_one = record {
  World = ℕ;
  claim = λ n w. (suc w, some (record { lease_id = some "lease"; jobs = tally_id w ∷ [] }));
  shutdown_requested = λ w. false;
}

abbrev empty_pool : Pool
empty_pool = record { in_flight = []; claimed_once = false; received_empty_claim = false }

claim_turn_ends_example :
    (claim_turn one_by_one false (runtime_of 3 1 2) 0 empty_pool).2 ≢ out_of_fuel
claim_turn_ends_example = claim_turn_ends one_by_one false (runtime_of 3 1 2) 0 empty_pool

claim_turn-le_example :
    length (claim_turn one_by_one false (runtime_of 3 1 2) 0 empty_pool).1.in_flight ≤ 3
claim_turn-le_example =
    claim_turn-le one_by_one false (runtime_of 3 1 2) (λ n w. omega arith) 0 empty_pool

abbrev two_queued : ClaimTables
two_queued = record { origins = host_origin ∷ []; jobs = two_jobs; leases = 0 }
