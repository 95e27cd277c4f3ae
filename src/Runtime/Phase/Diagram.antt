-- ===== src/Runtime/Phase/Diagram.antt =====
-- The state diagram of docs/01-核心规范/02-状态机与终态规范.md §5, edge by edge, and the code's matrix
-- against it.
use agent_ueaf.Common.{◌≡◌, ◌≢◌, refl, subst, ◌↔◌, true, false, [], ◌∷◌, arith}
use agent_ueaf.Common.Exec.{ok}
use agent_ueaf.Runtime.Phase.{
  RunPhase, queued, admitting, running, waiting, retrying, paused, terminal, can_transition,
  validate_transition, same_phase, in_phases,
}

infix 40 ◌⟶◌ ◌⟶*◌
pub data ◌⟶◌ : RunPhase → RunPhase → Type 0 where
  acquire_admission_lease : queued ⟶ admitting
  cancel_queued : queued ⟶ terminal
  admitted : admitting ⟶ running
  deferred : admitting ⟶ waiting
  rejected_or_fatal : admitting ⟶ terminal
  external_condition_registered : running ⟶ waiting
  safe_retry_scheduled : running ⟶ retrying
  pause_committed : running ⟶ paused
  final_disposition_committed : running ⟶ terminal
  admission_deferred_condition_met : waiting ⟶ admitting
  admitted_run_condition_met : waiting ⟶ running
  admitted_run_retry_condition_met : waiting ⟶ retrying
  explicit_pause_preserve_origin : waiting ⟶ paused
  expiry_cancel_or_final_disposition : waiting ⟶ terminal
  retry_lease_acquired : retrying ⟶ running
  external_condition_required : retrying ⟶ waiting
  explicit_pause : retrying ⟶ paused
  attempts_exhausted_or_cancelled : retrying ⟶ terminal
  resume_requires_readmission : paused ⟶ admitting
  admitted_binding_resume_validated : paused ⟶ running
  cancelled_or_cannot_migrate : paused ⟶ terminal

-- A path of the diagram.
pub data ◌⟶*◌ (p : RunPhase) : RunPhase → Type 0 where
  here : p ⟶* p
  next : {q r : RunPhase} → p ⟶* q → q ⟶ r → p ⟶* r

ruleset edges = (
  acquire_admission_lease, cancel_queued, admitted, deferred, rejected_or_fatal,
  external_condition_registered, safe_retry_scheduled, pause_committed, final_disposition_committed,
  admission_deferred_condition_met, admitted_run_condition_met, admitted_run_retry_condition_met,
  explicit_pause_preserve_origin, expiry_cancel_or_final_disposition, retry_lease_acquired,
  external_condition_required, explicit_pause, attempts_exhausted_or_cancelled,
  resume_requires_readmission, admitted_binding_resume_validated, cancelled_or_cannot_migrate,
)

pub edge : (p q : RunPhase) → can_transition p q ≡ true → p ⟶ q
unfolding can_transition
edge p q h = grind (arith, edges)

pub allowed : {p q : RunPhase} → p ⟶ q → can_transition p q ≡ true
unfolding can_transition
allowed acquire_admission_lease = refl
allowed _ = refl

-- `validate_transition` accepts a pair of phases exactly when the diagram has the edge.
validate_transition_iff : (p q : RunPhase) → (validate_transition p q ≡ ok tt) ↔ (p ⟶ q)
unfolding validate_transition
validate_transition_iff p q = (λ h. edge p q (ground arith), λ e. ground (arith, allowed e))

-- Every phase is reached from `queued`, and `terminal` from every phase.
pub queued_⟶* : (p : RunPhase) → queued ⟶* p
queued_⟶* queued = here
queued_⟶* _ = search (here, next, edges)

pub ⟶*_terminal : (p : RunPhase) → p ⟶* terminal
⟶*_terminal terminal = here
⟶*_terminal _ = search (here, next, edges)

-- No edge leaves `terminal`.
pub terminal_absorbing : (p : RunPhase) → terminal ⟶ p → ⊥
unfolding can_transition
terminal_absorbing p e = cc (allowed e)

-- No edge enters `queued`.
pub queued_initial : (p : RunPhase) → p ⟶ queued → ⊥
unfolding can_transition
queued_initial p e = ground (arith, allowed e)

-- The tests that commands make in place of `validate_transition` agree with it.
pub live_terminal :
    (p : RunPhase) → same_phase p terminal ≡ false → can_transition p terminal ≡ true
unfolding can_transition
live_terminal p h = ground arith

pub executing_waiting :
    (p : RunPhase)
    → in_phases p (admitting ∷ running ∷ retrying ∷ []) ≡ true
    → can_transition p waiting ≡ true
unfolding can_transition
executing_waiting p h = ground arith

pub can_transition_live : (p q : RunPhase) → can_transition p q ≡ true → p ≢ terminal
can_transition_live p q h = λ e. terminal_absorbing q (subst (λ t. t ⟶ q) e (edge p q h))

pub executing_live :
    (p : RunPhase) → in_phases p (admitting ∷ running ∷ retrying ∷ []) ≡ true → p ≢ terminal
executing_live p h = ground arith

pub validate_transition_ok :
    (p q : RunPhase) → validate_transition p q ≡ ok tt → can_transition p q ≡ true
validate_transition_ok p q h = allowed ((validate_transition_iff p q).0 h)
