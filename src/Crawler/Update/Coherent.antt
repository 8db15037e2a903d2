-- ===== src/Crawler/Update/Coherent.antt =====
-- The states that `CrawlerRuntimeState` of services/crawler/src/worker.rs reaches.
use find_verse.Crawler.Update.{
  UpdateStatus, idle, downloading, failed, RuntimeState, Instruction, is_text, is_busy,
  clean_version, stand_by, aim_at, follow_instruction, apply_server_instruction, is_pending,
  target_of, pending_target, mark_downloading, mark_restarting, mark_failed, heartbeats,
  update_failed, UpdatePhase, looping, chosen, fetching, UpdateReach, start, beat, choose, download,
  fail, install,
}
use find_verse.Prelude.{
  List, [], ◌∷◌, String, Option, none, some, Bool, true, false, ◌≡◌, refl, ap, ◌∙◌, str_eq, eq_iff,
  eq_refl, is_some, if_elim, arith,
}

abbrev pub is_idle : UpdateStatus → Bool
is_idle idle = true
is_idle _ = false

abbrev pub is_failed : UpdateStatus → Bool
is_failed failed = true
is_failed _ = false

-- What a status says about the rest of the state.
pub record IsCoherent (s : RuntimeState) : Type 0 where
  pub idle_aimless : is_idle s.update_status ≡ true → s.desired_version ≡ none
  pub pending_aims : is_some (pending_target s) ≡ is_pending s.update_status
  pub failure_known :
      is_failed s.update_status ≡ true
      → (is_some s.desired_version ≡ true) × (s.failed_target ≡ s.desired_version)
  pub failure_past : is_failed s.update_status ≡ false → s.failed_target ≡ none

stand_by-IsCoherent : (s : RuntimeState) → IsCoherent s → IsCoherent (stand_by s)
unfolding stand_by pending_target target_of
stand_by-IsCoherent s h = ground arith

aim_at-IsCoherent :
    (target : String) (renewed : Bool) (s : RuntimeState)
    → str_eq target s.version ≡ false
    → (renewed ≡ false → s.desired_version ≡ some target)
    → IsCoherent s
    → IsCoherent (aim_at target renewed s)
unfolding aim_at pending_target target_of
aim_at-IsCoherent target renewed s other same h = ground (arith, eq_refl target)

aimed_before :
    (target : String) (desired : Option String)
    → is_text target desired ≡ true
    → desired ≡ some target
aimed_before target none h = ground arith
aimed_before target (some s) h = ap some ((eq_iff s target).0 h)

follow_instruction-IsCoherent :
    (server : String) (s : RuntimeState) (desired : Option String)
    → IsCoherent s
    → IsCoherent (follow_instruction server s desired)
unfolding follow_instruction
follow_instruction-IsCoherent server s none h = stand_by-IsCoherent s h
follow_instruction-IsCoherent server s (some target) h =
    if_elim IsCoherent (str_eq target s.version) (λ _. stand_by-IsCoherent s h)
      (λ other.
        aim_at-IsCoherent target _ s other
          (λ e. aimed_before target s.desired_version (ground arith)) h)

apply_server_instruction-IsCoherent :
    (i : Instruction) (s : RuntimeState) → IsCoherent s → IsCoherent (apply_server_instruction i s)
unfolding apply_server_instruction
apply_server_instruction-IsCoherent i s h =
    follow_instruction-IsCoherent i.update_status s (clean_version i.desired_version) h

-- Marks that need nothing but a clear record of failures.
marked-IsCoherent :
    (target message : String) (s : RuntimeState)
    → IsCoherent (mark_failed target message s)
      × (s.failed_target ≡ none
          → IsCoherent (mark_downloading target s) × IsCoherent (mark_restarting target s))
unfolding mark_failed mark_downloading mark_restarting pending_target target_of
marked-IsCoherent target message s = ground (arith, eq_refl target)

-- A heartbeat does not stop an update that runs.
pub follow_instruction_busy :
    (server : String) (s : RuntimeState) (desired : Option String)
    → is_busy s.update_status ≡ true
    → s.failed_target ≡ none
    → ((follow_instruction server s desired).update_status ≡ s.update_status)
      × ((follow_instruction server s desired).failed_target ≡ none)
unfolding follow_instruction aim_at stand_by
follow_instruction_busy server s none b h = ground arith
follow_instruction_busy server s (some target) b h = ground arith

pub heartbeats_busy :
    (is : List Instruction) (s : RuntimeState)
    → is_busy s.update_status ≡ true
    → s.failed_target ≡ none
    → ((heartbeats is s).update_status ≡ s.update_status) × ((heartbeats is s).failed_target ≡ none)
unfolding heartbeats apply_server_instruction
heartbeats_busy [] s b h = (refl, h)
heartbeats_busy (i ∷ is) s b h =
    let next = follow_instruction_busy i.update_status s (clean_version i.desired_version) b h in
    let rest = heartbeats_busy is _ (ap is_busy next.0 ∙ b) next.1 in (rest.0 ∙ next.0, rest.1)

-- What a phase says beside: a chosen target has no failure, and nothing but its end stops a download.
abbrev pub PhaseFits : UpdatePhase → RuntimeState → Type 0
PhaseFits looping s = Unit
PhaseFits (chosen target) s = is_failed s.update_status ≡ false
PhaseFits (fetching target) s = s.update_status ≡ downloading

unfailed :
    (server : String) (s : RuntimeState) (desired : Option String)
    → is_failed s.update_status ≡ false
    → s.failed_target ≡ none
    → is_failed (follow_instruction server s desired).update_status ≡ false
unfolding follow_instruction aim_at stand_by
unfailed server s none b h = ground arith
unfailed server s (some target) b h = ground arith

beat_fits :
    (phase : UpdatePhase) (i : Instruction) (s : RuntimeState)
    → IsCoherent s
    → PhaseFits phase s
    → PhaseFits phase (apply_server_instruction i s)
unfolding apply_server_instruction
beat_fits looping i s h f = tt
beat_fits (chosen target) i s h f =
    unfailed i.update_status s (clean_version i.desired_version) f (h.failure_past f)
beat_fits (fetching target) i s h f =
    (follow_instruction_busy i.update_status s (clean_version i.desired_version) (ap is_busy f)
      (h.failure_past (ap is_failed f))).0
    ∙ f

chosen_fits :
    (target : String) (s : RuntimeState)
    → pending_target s ≡ some target
    → IsCoherent s
    → is_failed s.update_status ≡ false
chosen_fits target s e h = ground (arith, h.pending_aims, e)

-- In every state that a worker comes through, whatever the server answers, whenever its heartbeats come
-- and however the downloads end: it has a version to install exactly when its status is pending, an
-- idle crawler wants none, a failed one knows that the version it wants is the one that failed, and no
-- other keeps a failure. From the choice of a version to its download the status is not failed, and
-- during the whole download it is downloading.
pub UpdateReach-IsCoherent :
    {version : String} {phase : UpdatePhase} {s : RuntimeState}
    → UpdateReach version phase s
    → IsCoherent s × PhaseFits phase s
unfolding pending_target target_of mark_downloading update_failed
UpdateReach-IsCoherent start = (ground arith, tt)
UpdateReach-IsCoherent (beat {phase} {s} i r) =
    let ih = UpdateReach-IsCoherent r in
    (apply_server_instruction-IsCoherent i s ih.0, beat_fits phase i s ih.0 ih.1)
UpdateReach-IsCoherent (choose {s} target e r) =
    let ih = UpdateReach-IsCoherent r in (ih.0, chosen_fits target s e ih.0)
UpdateReach-IsCoherent (download {target} {s} r) =
    let ih = UpdateReach-IsCoherent r in
    (((marked-IsCoherent target "" s).1 (ih.0.failure_past ih.1)).0, refl)
UpdateReach-IsCoherent (fail {target} {s} error r) = ((marked-IsCoherent target _ s).0, tt)
UpdateReach-IsCoherent (install {target} {s} r) =
    let ih = UpdateReach-IsCoherent r in
    (((marked-IsCoherent target "" s).1 (ih.0.failure_past (ap is_failed ih.1))).1, tt)
