-- ===== src/Examples/Actions.antt =====
-- The theorems on actions (src/ueaf/tool/action.py), applied.
use agent_ueaf.Common.{
  ℕ, ◌+◌, ◌≤◌, String, ◌≡◌, ◌⊎◌, refl, Bool, true, Option, none, some, List, [], ◌∷◌, is_some,
  truthy, Dict.lookup, Dict.insert, arith,
}
use agent_ueaf.Common.Exec.{ok}
use agent_ueaf.Contract.{new_meta}
use agent_ueaf.Security.Policy.{PolicyDecision, allow, deny, require_approval, ActionFingerprint}
use agent_ueaf.Tool.Action.Phase
use agent_ueaf.Tool.Action.Record
use agent_ueaf.Tool.Action.Phase.{
  ActionPhase, proposed, validating, authorizing, waiting_approval, reserved, executing,
  reconciling, terminal, executed, denied, validate_transition, transition_sources,
}
use agent_ueaf.Tool.Action.Record.{
  ActionRecord, ActionReceipt, succeeded, unknown, resolved_succeeded, validate_action,
}
use agent_ueaf.Tool.Action.State.{Actions, check_fencing}
use agent_ueaf.Tool.Action.Commands.{
  ActionInput, proposed_record, create_action, authorize, reservation, begin_execution, renew_lease,
  retry,
}
use agent_ueaf.Tool.Action.Receipts.{
  record_receipt, get, phase_after, with_receipt, after_receipt, reconciled,
}
use agent_ueaf.Tool.Action.Authority.{
  IsInTime, begin_execution-ok, authorize-ok, retry-ok, renew_lease-ok,
}
use agent_ueaf.Tool.Action.Stale.{get-record_receipt, begin_execution_overwrites}
use agent_ueaf.Tool.Action.Identity.{create_action_again}
use agent_ueaf.Examples.Data.{world}

abbrev fingerprint : ActionFingerprint
fingerprint = record {
  tenant_id = "tenant";
  principal_id = "user:1";
  capability_ref = "tool:mail";
  resource = "mailbox:1";
  trace_id = some "trace:1";
  action_fingerprint = "hash:1";
  action_key = "key:1";
}

abbrev input : ActionInput
input = record {
  tool_intent_ref = "intent:1";
  run_id = "run:1";
  turn_id = none;
  capability_ref = "tool:mail";
  fingerprint = fingerprint;
}

abbrev action : ActionPhase → ActionRecord
action phase = record (proposed_record "0.1.0" input "action:1" 7) { phase = phase }

abbrev state_of : ActionRecord → Actions
state_of a = record {
  records = ("action:1", a) ∷ [];
  by_key = ("key:1", "action:1") ∷ [];
  receipts = [];
  deadlines = ("action:1", 20) ∷ [];
  clock_reads = 0;
  drawn = 0;
  producer_version = "0.1.0";
}

abbrev no_actions : Actions
no_actions = record {
  records = [];
  by_key = [];
  receipts = [];
  deadlines = [];
  clock_reads = 0;
  drawn = 0;
  producer_version = "0.1.0";
}

abbrev first_action : ActionRecord
first_action = proposed_record "0.1.0" input "action:" 7

abbrev entered : Actions
entered = record no_actions {
  records = ("action:", first_action) ∷ [];
  by_key = ("key:1", "action:") ∷ [];
  drawn = 1;
}

create_action_again_example :
    create_action world input (some 9) entered ≡ (ok first_action, entered)
unfolding create_action lookup agent_ueaf.Common.Exec.◌>>=◌ agent_ueaf.Tool.Action.State.moment_of
    agent_ueaf.Tool.Action.State.new_object_id agent_ueaf.Contract.validate_meta validate_action
    insert
create_action_again_example =
    create_action_again world input input (some 7) (some 9) first_action no_actions entered refl
      refl

abbrev decision : PolicyDecision
decision = record {
  meta = new_meta "PolicyDecision" "decision:1" "tenant" 7 "ueaf-pdp" "0.1.0";
  policy_decision_id = "decision:1";
  principal_context_ref = "principal:user:1";
  action = "tool:mail";
  resource = "mailbox:1";
  environment = "prod";
  outcome = allow;
  constraints = [];
  reason_codes = "rule_matched" ∷ [];
  policy_versions = "1" ∷ [];
  evaluated_at = some 7;
  expires_at = some 9;
  input_hash = none;
}

abbrev authorized : ActionRecord
authorized = record (action reserved) {
  policy_decision_ref = some "decision:1";
  idempotency_reservation_ref = some "reservation:key:1";
  revision = 3;
  updated_at = some 1_000_001;
}

authorize-ok_example :
    ((validating ≡ validating) ⊎ (validating ≡ waiting_approval))
    × (authorized.policy_decision_ref ≡ some "decision:1")
    × (3 ≡ 1 + 2)
    × (allow ≡ deny → (reserved ≡ terminal) × (authorized.disposition ≡ some denied))
    × (allow ≡ require_approval
        → (reserved ≡ waiting_approval)
          × (authorized.approval_request_ref ≡ none)
          × (truthy "" ≡ true))
    × (allow ≡ allow
        → (reserved ≡ reserved)
          × (authorized.idempotency_reservation_ref ≡ some (reservation (action validating))))
unfolding authorize agent_ueaf.Common.Exec.◌>>=◌ agent_ueaf.Tool.Action.State.require lookup
    validate_transition agent_ueaf.Tool.Action.State.transition
    agent_ueaf.Tool.Action.State.read_clock validate_action agent_ueaf.Tool.Action.State.store
    insert
authorize-ok_example =
    authorize-ok world (action validating) authorized decision none (state_of (action validating))
      (record (state_of authorized) { clock_reads = 2 }) refl

abbrev begun : ActionRecord
begun = record (action executing) {
  revision = 2;
  updated_at = some 1_000_000;
  lease_fencing_token = some 3;
}

begin_execution-ok_example :
    (reserved ≡ reserved)
    × (is_some (lookup "action:1" (state_of (action reserved)).records) ≡ true)
    × ((presented held : ℕ)
        → some 3 ≡ some presented
        → (action reserved).lease_fencing_token ≡ some held
        → held ≤ presented)
    × IsInTime (lookup "action:1" (state_of (action reserved)).deadlines) 20
    × (begun ≡ record (action reserved) {
      phase = executing;
      lease_fencing_token = some 3;
      revision = 2;
      updated_at = some 1_000_000;
    })
    × (lookup "action:1" (record (state_of begun) { clock_reads = 1 }).records ≡ some begun)
unfolding begin_execution agent_ueaf.Common.Exec.◌>>=◌ agent_ueaf.Tool.Action.State.require lookup
    check_fencing agent_ueaf.Tool.Action.State.moment_of agent_ueaf.Tool.Action.State.check_deadline
    validate_transition agent_ueaf.Tool.Action.State.transition
    agent_ueaf.Tool.Action.State.read_clock validate_action agent_ueaf.Tool.Action.State.store
    insert
begin_execution-ok_example =
    begin_execution-ok world (action reserved) begun (some 3) 20 (state_of (action reserved))
      (record (state_of begun) { clock_reads = 1 }) refl

renew_lease-ok_example : (reserved ≡ reserved) × (begun.phase ≡ executing)
unfolding renew_lease agent_ueaf.Common.Exec.◌>>=◌ agent_ueaf.Tool.Action.State.require lookup
    check_fencing agent_ueaf.Tool.Action.State.moment_of agent_ueaf.Tool.Action.State.check_deadline
    agent_ueaf.Tool.Action.State.transition validate_transition
    agent_ueaf.Tool.Action.State.read_clock validate_action agent_ueaf.Tool.Action.State.store
    insert
renew_lease-ok_example =
    renew_lease-ok world (action reserved) begun 3 (some 20) (state_of (action reserved))
      (record (state_of begun) { clock_reads = 1 }) refl

abbrev failed_action : ActionRecord
failed_action = record (action terminal) {
  disposition = some Phase.failed;
  receipt_refs = "receipt:1" ∷ [];
  latest_receipt_ref = some "receipt:1";
}

abbrev second_attempt : ActionRecord
second_attempt = record (action reserved) { attempt = 2; revision = 2; updated_at = some 20 }

retry-ok_example :
    (terminal ≡ terminal)
    × (failed_action.disposition ≡ some Phase.failed)
    × (true ≡ true)
    × (1 ≤ 1)
    × (truthy "evidence:1" ≡ true)
    × IsInTime (lookup "action:1" (state_of failed_action).deadlines) 20
    × (reserved ≡ reserved)
    × (second_attempt.action_key ≡ failed_action.action_key)
    × (2 ≡ 1 + 1)
    × (second_attempt.receipt_refs ≡ [])
unfolding retry agent_ueaf.Common.Exec.◌>>=◌ agent_ueaf.Tool.Action.State.require lookup
    agent_ueaf.Tool.Action.State.moment_of agent_ueaf.Tool.Action.State.check_deadline
    validate_action agent_ueaf.Tool.Action.State.store insert
retry-ok_example =
    retry-ok world failed_action second_attempt true 1 "evidence:1" 20 (state_of failed_action)
      (state_of second_attempt) refl

abbrev receipt : ActionReceipt
receipt = record {
  action_receipt_id = "receipt:1";
  action_key = "key:1";
  action_fingerprint = "hash:1";
  tool_intent_ref = "intent:1";
  capability_ref = "tool:mail";
  executor_ref = "executor:1";
  status = unknown;
  attempt = 1;
  started_at = none;
  finished_at = none;
  external_reference = none;
  result_digest = none;
  error = none;
  reconciliation = none;
  integrity_ref = none;
}

abbrev received : ActionRecord
received = record (action reconciling) {
  receipt_refs = "receipt:1" ∷ [];
  latest_receipt_ref = some "receipt:1";
  reconciliation_state = some (Record.unknown_outcome "receipt:1");
  revision = 2;
  updated_at = some 9;
}

abbrev with_receipts : Actions
with_receipts = record (state_of (action executing)) { receipts = ("receipt:1", receipt) ∷ [] }

get-record_receipt_example :
    (get "action:1" with_receipts ≡ get "action:1" (state_of (action executing)))
    × (with_receipts.receipts ≡ insert "receipt:1" receipt [])
    × (received.latest_receipt_ref ≡ some "receipt:1")
    × (reconciling ≡ phase_after unknown)
    × (validate_transition executing (phase_after unknown) ≡ ok tt)
unfolding record_receipt agent_ueaf.Common.Exec.◌>>=◌ agent_ueaf.Tool.Action.State.require lookup
    agent_ueaf.Tool.Action.State.moment_of validate_action with_receipt validate_transition
    after_receipt insert
get-record_receipt_example =
    get-record_receipt world (action executing) received receipt (some 9)
      (state_of (action executing)) with_receipts "action:1" refl

abbrev settled : ActionRecord
settled = reconciled received resolved_succeeded "evidence:1" 1_000_000

abbrev ended_state : Actions
ended_state = record (state_of failed_action) { deadlines = [] }

begin_execution_overwrites_example :
    let u : ActionRecord = record (action reserved) {
      phase = executing;
      lease_fencing_token = some 3;
      revision = 2;
      updated_at = some 1_000_000;
    } in
    ((begin_execution world (action reserved) (some 3) (some 20) ended_state).0 ≡ ok u)
    × (get "action:1" (begin_execution world (action reserved) (some 3) (some 20) ended_state).1
        ≡ some u)
unfolding validate_action lookup
begin_execution_overwrites_example =
    begin_execution_overwrites world (action reserved) failed_action 3 20 ended_state refl refl
      (omega arith) (λ held e. absurd cc) refl refl
