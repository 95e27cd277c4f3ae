-- ===== src/Tool/Action/Phase.antt =====
-- The phases of an action and their transitions (src/ueaf/tool/action.py).
use agent_ueaf.Common.{String, ◌≡◌, ◌⊎◌, Bool, true, false, ◌||◌, List, [], ◌∷◌, arith}
use agent_ueaf.Common.Exec.{Result, ok, require_that}

pub data ActionPhase : Type 0 where
  proposed validating authorizing waiting_approval : ActionPhase
  reserved executing reconciling terminal : ActionPhase

pub data ActionDisposition : Type 0 where
  executed denied approval_rejected invalid failed unresolved cancelled : ActionDisposition

-- The exceptions that the coordinator of actions raises.
pub data Error : Type 0 where
  value_error : String → Error
  key_error : String → Error
  action_state_error : String → Error

abbrev pub same_phase : ActionPhase → ActionPhase → Bool
same_phase proposed proposed = true
same_phase validating validating = true
same_phase authorizing authorizing = true
same_phase waiting_approval waiting_approval = true
same_phase reserved reserved = true
same_phase executing executing = true
same_phase reconciling reconciling = true
same_phase terminal terminal = true
same_phase _ _ = false

abbrev in_phases : ActionPhase → List ActionPhase → Bool
in_phases p [] = false
in_phases p (q ∷ qs) = same_phase p q || in_phases p qs

abbrev allowed : ActionPhase → List ActionPhase
allowed proposed = validating ∷ terminal ∷ []
allowed validating = authorizing ∷ terminal ∷ []
allowed authorizing = waiting_approval ∷ reserved ∷ terminal ∷ []
allowed waiting_approval = authorizing ∷ terminal ∷ []
allowed reserved = executing ∷ terminal ∷ []
allowed executing = reconciling ∷ terminal ∷ []
allowed reconciling = terminal ∷ []
allowed terminal = []

-- `_validate_transition`
unfoldable pub validate_transition : ActionPhase → ActionPhase → Result Error (Unit {0})
validate_transition from_phase to_phase =
    require_that (in_phases to_phase (allowed from_phase))
      (action_state_error "invalid_action_transition")

-- Where a transition of an action is accepted: execution is entered only from a reservation, a
-- reservation only from an authorisation, an authorisation only from a validated action or one that
-- waits for approval, and nothing is entered from the terminal phase.
pub transition_sources :
    (p q : ActionPhase)
    → validate_transition p q ≡ ok tt
    → (q ≡ executing → p ≡ reserved)
      × (q ≡ reserved → p ≡ authorizing)
      × (q ≡ authorizing → (p ≡ validating) ⊎ (p ≡ waiting_approval))
      × (p ≡ terminal → ⊥)
unfolding validate_transition
transition_sources p q h = ground arith
