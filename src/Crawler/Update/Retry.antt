-- ===== src/Crawler/Update/Retry.antt =====
-- How `CrawlerRuntimeState` of services/crawler/src/worker.rs tries again, and where it does not.
use find_verse.Crawler.Update.{
  failed, RuntimeState, Instruction, clean_version, stand_by, aim_at, follow_instruction,
  apply_server_instruction, target_of, pending_target, mark_restarting, mark_failed, heartbeats,
}
use find_verse.Crawler.Update.Coherent.{heartbeats_busy}
use find_verse.Prelude.{
  List, [], ◌∷◌, String, none, some, true, false, ◌≡◌, refl, ap, ◌∙◌, All, str_eq, eq_refl, arith,
}

-- The server goes on asking for the version and does not force another try.
abbrev pub IsPatient : String → Instruction → Type 0
IsPatient target i =
    (clean_version i.desired_version ≡ some target) × (str_eq i.update_status "pending" ≡ false)

-- What a failed update leaves.
HasFailed : String → RuntimeState → Type 0
HasFailed target s =
    (s.desired_version ≡ some target) × (s.failed_target ≡ some target) × (s.update_status ≡ failed)

still_failed :
    (target server : String) (s : RuntimeState)
    → str_eq target s.version ≡ false
    → str_eq server "pending" ≡ false
    → HasFailed target s
    → HasFailed target (follow_instruction server s (some target))
      × ((follow_instruction server s (some target)).version ≡ s.version)
unfolding follow_instruction aim_at stand_by HasFailed
still_failed target server s v p h = ground (arith, eq_refl target)

heartbeats_failed :
    (target : String) (is : List Instruction) (s : RuntimeState)
    → All (IsPatient target) is
    → str_eq target s.version ≡ false
    → HasFailed target s
    → HasFailed target (heartbeats is s) × ((heartbeats is s).version ≡ s.version)
unfolding heartbeats apply_server_instruction
heartbeats_failed target [] s p v h = (h, refl)
heartbeats_failed target (i ∷ is) s p v h =
    let next = still_failed target i.update_status s v p.0.1 h in
    let one : HasFailed target (apply_server_instruction i s)
        × ((apply_server_instruction i s).version ≡ s.version) =
      rw p.0.0 next in
    let rest =
      heartbeats_failed target is (apply_server_instruction i s) p.1 (ap (str_eq target) one.1 ∙ v)
        one.0 in
    (rest.0, rest.1 ∙ one.1)

-- A version whose installation has failed is not tried again while the server goes on asking for it,
-- and is tried again as soon as the server forces it.
pub mark_failed-pending_target :
    (target message : String) (is : List Instruction) (forcing : Instruction) (s : RuntimeState)
    → str_eq target s.version ≡ false
    → All (IsPatient target) is
    → clean_version forcing.desired_version ≡ some target
    → str_eq forcing.update_status "pending" ≡ true
    → let later = heartbeats is (mark_failed target message s) in
      (pending_target later ≡ none)
      × (pending_target (apply_server_instruction forcing later) ≡ some target)
unfolding pending_target target_of apply_server_instruction follow_instruction aim_at HasFailed
    mark_failed
mark_failed-pending_target target message is forcing s v p f q =
    let after = heartbeats_failed target is (mark_failed target message s) p v (refl, refl, refl) in
    rw f (ground (arith, after, eq_refl target, v, q))

-- Once the binary has been replaced and the service is not restarted, no heartbeat starts another
-- update, whatever version the server asks for.
pub mark_restarting-pending_target :
    (target : String) (is : List Instruction) (s : RuntimeState)
    → s.failed_target ≡ none
    → pending_target (heartbeats is (mark_restarting target s)) ≡ none
unfolding pending_target target_of mark_restarting
mark_restarting-pending_target target is s h =
    let after = heartbeats_busy is (mark_restarting target s) refl h in ground (arith, after)
