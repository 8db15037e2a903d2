-- ===== src/Crawler/Update.antt =====
-- services/crawler/src/worker.rs: `CrawlerRuntimeState`, which decides when a crawler replaces its own
-- binary, and the phases of `apply_pending_update`, which does so, with the heartbeats between them.
pub mod Coherent
pub mod Retry
use Prim.Native.String
use find_verse.Prelude.{
  ℕ, List, [], ◌∷◌, String, Option, none, some, Bool, true, false, not, ◌&&◌, ◌||◌, str_eq,
  is_empty_str, is_none, ◌≡◌, trim, take_chars, if◌then◌else◌,
}

-- The texts that `update_status` takes.
pub data UpdateStatus : Type 0 where
  idle pending downloading restarting failed : UpdateStatus

pub record RuntimeState : Type 0 where
  pub version : String
  pub desired_version : Option String
  pub update_status : UpdateStatus
  pub update_message : Option String
  pub failed_target : Option String

abbrev pub new_state : String → RuntimeState
new_state version = record {
  version = version;
  desired_version = none;
  update_status = idle;
  update_message = none;
  failed_target = none;
}

-- The answer to a heartbeat, as far as it is about the version.
pub record Instruction : Type 0 where
  pub desired_version : Option String
  pub update_status : String

abbrev pub is_text : String → Option String → Bool
is_text t none = false
is_text t (some s) = str_eq s t

abbrev pub is_busy : UpdateStatus → Bool
is_busy downloading = true
is_busy restarting = true
is_busy _ = false

unfoldable pub clean_version : Option String → Option String
unfolding trim is_empty_str
clean_version none = none
clean_version (some value) =
    let clean = trim value in if is_empty_str clean then none else some clean

-- Nothing is to be installed.
unfoldable pub stand_by : RuntimeState → RuntimeState
stand_by s = record s {
  desired_version = none;
  failed_target = none;
  update_status = if is_busy s.update_status then s.update_status else idle;
  update_message = if is_busy s.update_status then s.update_message else none;
}

-- Another version is wanted. `renewed` says that the target is new or the server wants another try.
unfoldable pub aim_at : (target : String) (renewed : Bool) → RuntimeState → RuntimeState
aim_at target renewed s =
    let failed_before = not renewed && is_text target s.failed_target in
    let waits = not failed_before && not (is_busy s.update_status) in
    record s {
      desired_version = some target;
      failed_target = if renewed then none else s.failed_target;
      update_status = if failed_before then failed else if waits then pending else s.update_status;
      update_message =
          if waits && (renewed || is_none s.update_message)
          then some (String.◌++◌ "waiting to update to " target)
          else s.update_message;
    }

unfoldable pub follow_instruction :
    (server_update_status : String) → RuntimeState → Option String → RuntimeState
unfolding stand_by aim_at
follow_instruction server_update_status s none = stand_by s
follow_instruction server_update_status s (some target) =
    if str_eq target s.version
    then stand_by s
    else aim_at target
        (not (is_text target s.desired_version) || str_eq server_update_status "pending") s

unfoldable pub apply_server_instruction : Instruction → RuntimeState → RuntimeState
unfolding follow_instruction clean_version
apply_server_instruction i s =
    follow_instruction i.update_status s (clean_version i.desired_version)

abbrev pub is_pending : UpdateStatus → Bool
is_pending pending = true
is_pending _ = false

unfoldable pub target_of : RuntimeState → Option String → Option String
target_of s none = none
target_of s (some target) =
    if str_eq target s.version
    then none
    else if is_text target s.failed_target
    then none
    else if is_pending s.update_status
    then some target
    else none

unfoldable pub pending_target : RuntimeState → Option String
unfolding target_of
pending_target s = target_of s s.desired_version

unfoldable pub mark_downloading : String → RuntimeState → RuntimeState
mark_downloading target s = record s {
  desired_version = some target;
  update_status = downloading;
  update_message = some (String.◌++◌ "downloading " target);
}

unfoldable pub mark_restarting : String → RuntimeState → RuntimeState
mark_restarting target s = record s {
  desired_version = some target;
  update_status = restarting;
  update_message = some (String.◌++◌ "restarting service into " target);
}

unfoldable pub mark_failed : (target message : String) → RuntimeState → RuntimeState
unfolding take_chars
mark_failed target message s = record s {
  desired_version = some target;
  failed_target = some target;
  update_status = failed;
  update_message = some (take_chars 240 message);
}

-- The heartbeats that are answered, in turn. One that fails leaves the state alone.
unfoldable pub heartbeats : List Instruction → RuntimeState → RuntimeState
unfolding apply_server_instruction
heartbeats [] s = s
heartbeats (i ∷ is) s = heartbeats is (apply_server_instruction i s)

unfoldable pub update_failed : (target error : String) → RuntimeState → RuntimeState
unfolding mark_failed
update_failed target error s =
    mark_failed target
      (String.◌++◌ "update to " (String.◌++◌ target (String.◌++◌ " failed: " error))) s

-- Where the worker stands: at its loop, with a target that `pending_target` gave and that the next lock
-- is to mark, or with one that it downloads and installs.
pub data UpdatePhase : Type 0 where
  looping : UpdatePhase
  chosen fetching : (target : String) → UpdatePhase

-- The states that a worker comes through. The heartbeats of its other task come in at any time. After
-- `mark_restarting` the process ends, or goes on with its loop when the service cannot be restarted.
pub data UpdateReach (version : String) : UpdatePhase → RuntimeState → Type 0 where
  start : UpdateReach version looping (new_state version)
  beat :
      {phase : UpdatePhase} {s : RuntimeState} (i : Instruction)
      → UpdateReach version phase s
      → UpdateReach version phase (apply_server_instruction i s)
  choose :
      {s : RuntimeState} (target : String)
      → pending_target s ≡ some target
      → UpdateReach version looping s
      → UpdateReach version (chosen target) s
  download :
      {target : String} {s : RuntimeState}
      → UpdateReach version (chosen target) s
      → UpdateReach version (fetching target) (mark_downloading target s)
  fail :
      {target : String} {s : RuntimeState} (error : String)
      → UpdateReach version (fetching target) s
      → UpdateReach version looping (update_failed target error s)
  install :
      {target : String} {s : RuntimeState}
      → UpdateReach version (fetching target) s
      → UpdateReach version looping (mark_restarting target s)
