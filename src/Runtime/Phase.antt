-- ===== src/Runtime/Phase.antt =====
-- The closed transition matrix of runs (src/ueaf/runtime/state_machine.py) and the vocabularies of
-- src/ueaf/runtime/objects.py. A `Literal` of the source is a data type here, so its checks for an
-- unknown word cannot fail.
pub mod Diagram
use agent_ueaf.Common.{ℕ, String, Bool, true, false, ◌||◌, List, [], ◌∷◌}
use agent_ueaf.Common.Exec.{Result, ok, err, require_that}

pub data RunPhase : Type 0 where
  queued admitting running waiting retrying paused terminal : RunPhase

pub data CompletionDisposition : Type 0 where
  completed rejected incomplete failed cancelled : CompletionDisposition

pub data WaitReason : Type 0 where
  user_input tool_result approval dependency capacity reconciliation : WaitReason

pub data WaitOrigin : Type 0 where
  admission_deferred admitted_execution : WaitOrigin

-- The exceptions that the runtime raises. A message keeps its fixed part.
pub data Error : Type 0 where
  value_error : String → Error
  key_error : String → Error
  revision_conflict : String → ℕ → ℕ → Error
  stale_fencing : String → ℕ → ℕ → Error
  state_machine_error : RunPhase → RunPhase → String → Error

-- `p == q` on phases
abbrev pub same_phase : RunPhase → RunPhase → Bool
same_phase queued queued = true
same_phase admitting admitting = true
same_phase running running = true
same_phase waiting waiting = true
same_phase retrying retrying = true
same_phase paused paused = true
same_phase terminal terminal = true
same_phase _ _ = false

-- `d == e` on dispositions
abbrev pub same_disposition : CompletionDisposition → CompletionDisposition → Bool
same_disposition completed completed = true
same_disposition rejected rejected = true
same_disposition incomplete incomplete = true
same_disposition failed failed = true
same_disposition cancelled cancelled = true
same_disposition _ _ = false

-- `p in phases`
abbrev pub in_phases : RunPhase → List RunPhase → Bool
in_phases p [] = false
in_phases p (q ∷ qs) = same_phase p q || in_phases p qs

-- `_TRANSITIONS`
abbrev transitions : RunPhase → List RunPhase
transitions queued = admitting ∷ terminal ∷ []
transitions admitting = running ∷ waiting ∷ terminal ∷ []
transitions running = waiting ∷ retrying ∷ paused ∷ terminal ∷ []
transitions waiting = admitting ∷ running ∷ retrying ∷ paused ∷ terminal ∷ []
transitions retrying = running ∷ waiting ∷ paused ∷ terminal ∷ []
transitions paused = admitting ∷ running ∷ terminal ∷ []
transitions terminal = []

unfoldable pub can_transition : RunPhase → RunPhase → Bool
can_transition from_phase to_phase = in_phases to_phase (transitions from_phase)

unfoldable pub validate_transition : RunPhase → RunPhase → Result Error (Unit {0})
unfolding can_transition
validate_transition from_phase to_phase =
    require_that (can_transition from_phase to_phase) (state_machine_error from_phase to_phase "")
