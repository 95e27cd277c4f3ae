-- ===== src/Examples/Admissions.antt =====
-- A controller, a budget and a principal, and a run to admit (src/ueaf/admission, src/ueaf/api).
use agent_ueaf.Common.{◌≡◌, refl, true, false, Option, none, some, [], ◌∷◌}
use agent_ueaf.Common.Exec.{Result, ok, err}
use agent_ueaf.Contract.{new_meta}
use agent_ueaf.Examples.Data.{world, task, run, store_of}
use agent_ueaf.Admission.Controller.{AdmissionController, evaluate}
use agent_ueaf.Admission.Envelopes.{BudgetEnvelope}
use agent_ueaf.Admission.Principal.{PrincipalContext, end_user}
use agent_ueaf.Admission.Result.{RunAdmissionResult, AdmissionOutcome, admitted}
use agent_ueaf.Runtime.Admission.{ApiContext, admit_run}
use agent_ueaf.Runtime.Phase.{queued, Error}
use agent_ueaf.Runtime.Admission.{admit_run}
use agent_ueaf.Runtime.Admission.Answered.{IsMoved, IsAnswered, admit_run-IsAnswered}
use agent_ueaf.Common.Exec.{◌>>=◌}
use agent_ueaf.Runtime.Coordinator.{
  begin_admission, announce_admission, apply_admission, move_admitted,
}
use agent_ueaf.Runtime.Writer.{transition, apply, emit, make_entry}
use agent_ueaf.Runtime.Store.{
  require, read_clock, update, new_object_id, append, appended, create_admission,
}
use agent_ueaf.Common.Dict.{lookup, insert}
use agent_ueaf.Runtime.Phase.{validate_transition, can_transition}
use agent_ueaf.Runtime.Record.{RunRecord, validate_record}
use agent_ueaf.Runtime.Outbox
use agent_ueaf.Common.Sets.{member, add}
use agent_ueaf.Admission.Controller.{
  check_binding, check_budget, check_policy, check_region, check_release, checks, decide, evaluate,
  failures, validation_refs,
}
use agent_ueaf.Admission.Envelopes.{within}
use agent_ueaf.Admission.Result.{is_valid_at, validate_result}
use agent_ueaf.Common.Decimal.{decimal}
use agent_ueaf.Contract.{starts_upper, validate_meta}

-- One release is usable, for every task; every run has an allowing decision; capacity is used up.
abbrev controller : AdmissionController
controller = record {
  release_gate = record { lifecycle_is_usable = λ r. true; is_compatible = λ r t. true };
  policy_source = record {
    resolved_policy_decision_refs = λ r. "decision:1" ∷ [];
    any_deny = λ r. false;
  };
  region_allowlist = "cn-east" ∷ "cn-north" ∷ [];
  budget_overhead = 0;
  capacity_ok = false;
}

abbrev budget : BudgetEnvelope
budget = record {
  meta = new_meta "BudgetEnvelope" "budget:1" "tenant" 5 "desk" "1.0.0";
  budget_id = "budget:1";
  absolute_deadline_at = none;
  max_steps = some 10;
  max_model_calls = none;
  max_token_budget = none;
  max_cost_millis = none;
  max_tool_calls = none;
  max_parallelism = none;
  reserved_finalize_millis = none;
  unbounded = [];
}

abbrev principal : PrincipalContext
principal = record {
  meta = new_meta "PrincipalContext" "principal:1" "tenant" 5 "desk" "1.0.0";
  principal_id = "principal:1";
  principal_type = end_user;
  tenant_id = "tenant";
  roles = "analyst" ∷ [];
  scopes = [];
  delegation_chain = [];
  authentication_strength = "password";
  credential_ref = none;
  data_regions = "cn-east" ∷ [];
  consent_refs = [];
  issued_at = none;
  expires_at = none;
  revocation_ref = none;
}

abbrev context : ApiContext
context = record {
  admission = controller;
  task_envelopes = ("task:1", task) ∷ [];
  budget_envelopes = ("task:1", budget) ∷ [];
}

abbrev outcome_of : Result Error RunAdmissionResult → Option AdmissionOutcome
outcome_of (ok r) = some r.outcome
outcome_of (err e) = none

-- A queued run is admitted although there is no capacity.
capacity_unread :
    outcome_of (admit_run world context principal "run:1" none (store_of (run queued))).0
    ≡ some admitted
unfolding admit_run ◌>>=◌ begin_admission announce_admission apply_admission move_admitted
    transition apply emit make_entry require read_clock update new_object_id append appended
    create_admission lookup insert validate_transition can_transition validate_record Outbox.append
    member add check_binding check_budget check_policy check_region check_release checks decide
    evaluate failures validation_refs within is_valid_at validate_result decimal starts_upper
    validate_meta
capacity_unread = refl

abbrev answer : RunAdmissionResult
answer = record {
  meta =
      record (new_meta "RunAdmissionResult" "run-admission:run:1:2" "tenant" 1_000_002
        "ueaf-admission" "0.1.0") {
          task_id = some "task:1";
          run_id = some "run:1";
          trace_id = some "trace:1";
          release_id = some "release:1";
        };
  run_admission_result_id = "run-admission:run:1:2";
  run_id = "run:1";
  outcome = admitted;
  validation_refs =
      "release-lifecycle" ∷ "release-task-compat" ∷ "policy-decisions" ∷ "budget-snapshot"
      ∷ "region" ∷ "adapter-binding-frozen" ∷ [];
  policy_decision_refs = "decision:1" ∷ [];
  budget_snapshot_ref = some "budget:1";
  release_manifest_ref = some "release:1";
  reason_codes = "admitted" ∷ [];
  retry_after = none;
  created_at = some 1_000_002;
  expires_at = some 301_000_002;
}

admit_run-IsAnswered_example :
    (a moved : RunRecord) × (lookup "run:1" (store_of (run queued)).runs ≡ some a)
    × ((begin_admission world "run:1" none (store_of (run queued))).0 ≡ ok moved)
    × IsMoved a moved
    × IsAnswered context principal moved answer
unfolding admit_run ◌>>=◌ begin_admission announce_admission apply_admission move_admitted
    transition apply emit make_entry require read_clock update new_object_id append appended
    create_admission lookup insert validate_transition can_transition validate_record Outbox.append
    member add check_binding check_budget check_policy check_region check_release checks decide
    evaluate failures validation_refs within is_valid_at validate_result decimal starts_upper
    validate_meta
admit_run-IsAnswered_example =
    admit_run-IsAnswered world context principal "run:1" none (store_of (run queued)) answer refl
