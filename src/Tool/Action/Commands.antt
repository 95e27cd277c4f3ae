-- ===== src/Tool/Action/Commands.antt =====
-- The methods of `ActionCoordinator` (src/ueaf/tool/action.py).
use Prim.Native.Nat.{max}
use Prim.Native.String as Text
use agent_ueaf.Common.{
  ℕ, ◌+◌, String, Bool, true, false, not, ◌&&◌, Option, none, some, [], ◌∷◌, ltb, truthy, or_text,
  if◌then◌else◌, Dict.lookup, Dict.insert,
}
use agent_ueaf.Common.Exec.{gets, ok, err, raise, lift, require_that, ◌>>=◌, ◌>>◌}
use agent_ueaf.Contract.{World, new_meta, validate_meta}
use agent_ueaf.Security.Policy.{
  PolicyDecision, PolicyOutcome, allow, deny, require_approval, ActionFingerprint,
}
use agent_ueaf.Tool.Action.Phase
use agent_ueaf.Tool.Action.Phase.{
  ActionPhase, proposed, validating, authorizing, waiting_approval, reserved, executing,
  reconciling, terminal, ActionDisposition, executed, denied, invalid, Error, value_error,
  key_error, action_state_error, same_phase, validate_transition,
}
use agent_ueaf.Tool.Action.Record.{ActionRecord, validate_action, checked}
use agent_ueaf.Tool.Action.State.{
  M, new_object_id, moment_of, require, check_fencing, check_deadline, store, transition, finish,
}

pub record ActionInput : Type 0 where
  pub tool_intent_ref : String
  pub run_id : String
  pub turn_id : Option String
  pub capability_ref : String
  pub fingerprint : ActionFingerprint

abbrev pub proposed_record : String → ActionInput → String → ℕ → ActionRecord
proposed_record producer_version input action_id moment = record {
  meta =
      let m =
        new_meta "ActionRecord" action_id input.fingerprint.tenant_id moment "ueaf-tool-gateway"
          producer_version in
      record m { run_id = some input.run_id; trace_id = input.fingerprint.trace_id };
  action_id = action_id;
  action_key = input.fingerprint.action_key;
  action_fingerprint = input.fingerprint.action_fingerprint;
  tool_intent_ref = input.tool_intent_ref;
  run_id = input.run_id;
  turn_id = input.turn_id;
  capability_ref = input.capability_ref;
  phase = proposed;
  disposition = none;
  policy_decision_ref = none;
  approval_request_ref = none;
  idempotency_reservation_ref = none;
  receipt_refs = [];
  latest_receipt_ref = none;
  reconciliation_state = none;
  terminal_reason_codes = [];
  attempt = 1;
  revision = 1;
  sequence = 0;
  lease_fencing_token = none;
  created_at = some moment;
  updated_at = some moment;
}

-- `self._records[existing]`
unfoldable pub known_record : String → M ActionRecord
known_record action_id s = elim (lookup action_id s.records) [
  | none ↦ (err (key_error action_id), s)
  | some a ↦ (ok a, s)
]

unfoldable pub enter : ActionRecord → M ActionRecord
enter a s = (
  ok a,
  record s {
    records = insert a.action_id a s.records;
    by_key = insert a.action_key a.action_id s.by_key;
  },
)

unfoldable pub new_action : World → ActionInput → Option ℕ → M ActionRecord
unfolding enter
new_action w input now = do
  moment ← moment_of w now
  action_id ← new_object_id w "action"
  producer_version ← gets (λ s. s.producer_version)
  let a = proposed_record producer_version input action_id moment
  lift (elim (validate_meta a.meta) [ none ↦ ok tt | some message ↦ err (value_error message) ])
  checked_record ← lift (checked a (validate_action a))
  enter checked_record

-- `create_action`
unfoldable pub create_action : World → ActionInput → Option ℕ → M ActionRecord
unfolding known_record new_action
create_action w input now s = elim (lookup input.fingerprint.action_key s.by_key) [
  | some action_id ↦ known_record action_id s
  | none ↦ new_action w input now s
]

-- `validate`
unfoldable pub validate : World → ActionRecord → Bool → M ActionRecord
validate w a valid = do
  require a
  if valid
      then transition w a validating (λ u. u)
      else finish w a invalid ("schema_or_resource_invalid" ∷ [])

abbrev pub reservation : ActionRecord → String
reservation a = Text.◌++◌ "reservation:" a.action_key

-- What `authorize` does with the record that is now `authorizing`, by the decision.
unfoldable pub settle :
    World → ActionRecord → ActionRecord → PolicyDecision → Option String → M ActionRecord
settle w a u decision approval_ref = go decision.outcome
  where
    go : PolicyOutcome → M ActionRecord
    go deny = finish w u denied decision.reason_codes
    go require_approval =
        if truthy (or_text approval_ref "")
        then transition w u waiting_approval (λ v. record v { approval_request_ref = approval_ref })
        else raise (value_error "require_approval MUST provide an approval_request_ref")
    go allow =
        transition w u reserved
          (λ v. record v { idempotency_reservation_ref = some (reservation a) })

-- `authorize`
unfoldable pub authorize : World → ActionRecord → PolicyDecision → Option String → M ActionRecord
unfolding settle
authorize w a decision approval_ref = do
  require a
  lift (validate_transition a.phase authorizing)
  u ←
      transition w a authorizing
        (λ v. record v { policy_decision_ref = some decision.policy_decision_id })
  settle w a u decision approval_ref

-- `reserve`
unfoldable pub reserve : World → ActionRecord → Option String → Option ℕ → M ActionRecord
reserve w a reservation_ref token = do
  require a
  lift (validate_transition a.phase reserved)
  transition w a reserved (λ v. record v {
    idempotency_reservation_ref = some (or_text reservation_ref (reservation a));
    lease_fencing_token = token;
  })

-- `begin_execution`
unfoldable pub begin_execution : World → ActionRecord → Option ℕ → Option ℕ → M ActionRecord
begin_execution w a token now = do
  require a
  lift (check_fencing a token)
  moment ← moment_of w now
  check_deadline a moment
  lift (validate_transition a.phase executing)
  transition w a executing (λ v. record v { lease_fencing_token = token })

abbrev held_token : ActionRecord → ℕ
held_token a = elim a.lease_fencing_token [ none ↦ 0 | some t ↦ t ]

-- `renew_lease`
unfoldable pub renew_lease : World → ActionRecord → ℕ → Option ℕ → M ActionRecord
renew_lease w a token now = do
  require a
  lift (check_fencing a (some token))
  moment ← moment_of w now
  check_deadline a moment
  transition w a executing (λ v. record v { lease_fencing_token = some (max token (held_token a)) })

bind_deadline : ActionRecord → ℕ → M (Unit {0})
bind_deadline a deadline s =
    (ok tt, record s { deadlines = insert a.action_id deadline s.deadlines })

-- `set_deadline`
unfoldable pub set_deadline : ActionRecord → ℕ → M (Unit {0})
unfolding bind_deadline
set_deadline a deadline = do require a; bind_deadline a deadline

-- `action.phase == "terminal" and action.disposition == "failed"`
abbrev pub has_failed : ActionRecord → Bool
has_failed a = same_phase a.phase terminal && is_failed a.disposition
  where
    is_failed : Option ActionDisposition → Bool
    is_failed (some Phase.failed) = true
    is_failed _ = false

-- The record that `retry` builds.
abbrev pub retried : ActionRecord → ℕ → ActionRecord
retried a moment = record a {
  phase = reserved;
  disposition = none;
  reconciliation_state = none;
  terminal_reason_codes = [];
  receipt_refs = [];
  latest_receipt_ref = none;
  attempt = a.attempt + 1;
  revision = a.revision + 1;
  updated_at = some moment;
}

-- `retry`
unfoldable pub retry : World → ActionRecord → Bool → ℕ → String → Option ℕ → M ActionRecord
retry w a retryable budget_remaining evidence_ref now = do
  require a
  moment ← moment_of w now
  lift (
      require_that (has_failed a)
        (action_state_error "retry requires a terminal ActionRecord with disposition 'failed'"))
  lift (require_that retryable (action_state_error "retry not allowed: action is not retryable"))
  lift (
      require_that (not (ltb budget_remaining 1))
        (action_state_error "retry not allowed: budget exhausted"))
  check_deadline a moment
  lift (
      require_that (truthy evidence_ref)
        (value_error "retry requires an evidence_ref proving the failed outcome"))
  u ← lift (checked (retried a moment) (validate_action (retried a moment)))
  store u
