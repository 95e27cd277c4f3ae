-- ===== src/Admission/Controller.antt =====
-- The admission of a queued run (src/ueaf/admission/controller.py). The release gate and the source of
-- policy decisions are protocols that no code of src/ueaf implements: they are interfaces, records
-- of their operations. `capacity_ok` is the flag that a subclass may set; the overhead is a natural
-- number.
pub mod Admitted
use Prim.Native.String as Text
use agent_ueaf.Common.{
  ℕ, ◌+◌, ◌*◌, String, Bool, true, false, not, ◌&&◌, Option, none, some, List, [], ◌∷◌, ◌++◌,
  truthy, is_empty, or_text, if◌then◌else◌, Dict.Dict, Decimal.decimal,
}
use agent_ueaf.Common.Exec.{Result, ok, err}
use agent_ueaf.Common.Sets.{member}
use agent_ueaf.Contract.{ContractMeta, new_meta, validate_meta}
use agent_ueaf.Admission.Envelopes.{BudgetEnvelope, within}
use agent_ueaf.Admission.Principal.{PrincipalContext}
use agent_ueaf.Admission.Reasons.{sorted_set}
use agent_ueaf.Admission.Result.{
  AdmissionOutcome, admitted, rejected, deferred, RunAdmissionResult, validate_result,
}
use agent_ueaf.Admission.Task.{TaskEnvelope}
use agent_ueaf.Runtime.Phase.{queued, Error, same_phase}
use agent_ueaf.Runtime.Record.{RunRecord, checked}

-- `ReleaseManifestGate`
pub record ReleaseManifestGate : Type 0 where
  pub lifecycle_is_usable : String → Bool
  pub is_compatible : String → TaskEnvelope → Bool

-- `PolicyDecisionRefs`
pub record PolicyDecisionRefs : Type 0 where
  pub resolved_policy_decision_refs : String → List String
  pub any_deny : String → Bool

pub record AdmissionCheckResult : Type 0 where
  pub passed : Bool
  pub reason_codes : List String
  pub validation_refs : List String

pub record AdmissionController : Type 0 where
  pub release_gate : ReleaseManifestGate
  pub policy_source : PolicyDecisionRefs
  pub region_allowlist : List String
  pub budget_overhead : ℕ
  pub capacity_ok : Bool

abbrev failing : String → AdmissionCheckResult
failing code = record { passed = false; reason_codes = code ∷ []; validation_refs = [] }

abbrev passing : List String → AdmissionCheckResult
passing refs = record { passed = true; reason_codes = []; validation_refs = refs }

-- `_check_release`
unfoldable pub check_release : AdmissionController → RunRecord → TaskEnvelope → AdmissionCheckResult
check_release c run task =
    if not (truthy run.release_id)
    then failing "release_missing"
    else if not (c.release_gate.lifecycle_is_usable run.release_id)
    then failing "release_not_usable"
    else if not (c.release_gate.is_compatible run.release_id task)
    then failing "release_incompatible_with_task"
    else passing ("release-lifecycle" ∷ "release-task-compat" ∷ [])

-- `_check_policy`
unfoldable pub check_policy : AdmissionController → RunRecord → AdmissionCheckResult
check_policy c run =
    if c.policy_source.any_deny run.run_id
    then failing "policy_denied"
    else if is_empty (c.policy_source.resolved_policy_decision_refs run.run_id)
    then failing "missing_policy_decision"
    else passing ("policy-decisions" ∷ [])

-- What a run has used before its first step.
abbrev pub overhead : AdmissionController → Dict ℕ
overhead c = ("steps", c.budget_overhead) ∷ ("model_calls", 0) ∷ ("tokens", 0) ∷ []

-- `_check_budget`
unfoldable pub check_budget :
    AdmissionController → RunRecord → BudgetEnvelope → AdmissionCheckResult
check_budget c run budget =
    if not (truthy (or_text run.budget_snapshot_ref ""))
    then failing "budget_snapshot_missing"
    else if not (within budget (overhead c))
    then failing "budget_exhausted"
    else passing ("budget-snapshot" ∷ [])

-- `_check_region`, over the regions that are left
unfoldable pub check_region : List String → List String → AdmissionCheckResult
check_region allowed [] = passing ("region" ∷ [])
check_region allowed (r ∷ rs) =
    let rest = check_region allowed rs in
    if not (member r allowed) then failing (Text.◌++◌ "region_not_allowed:" r) else rest

-- `_check_binding`
unfoldable pub check_binding : RunRecord → AdmissionCheckResult
check_binding run =
    if not (truthy run.runtime_adapter_ref)
    then failing "runtime_adapter_missing"
    else if not (truthy run.agent_ref)
    then failing "agent_definition_missing"
    else passing ("adapter-binding-frozen" ∷ [])

unfoldable pub checks :
    AdmissionController
    → RunRecord
    → TaskEnvelope
    → BudgetEnvelope
    → PrincipalContext
    → List AdmissionCheckResult
checks c run task budget principal =
    check_release c run task
    ∷ check_policy c run
    ∷ check_budget c run budget
    ∷ check_region c.region_allowlist principal.data_regions
    ∷ check_binding run
    ∷ []

unfoldable pub failures : List AdmissionCheckResult → List String
failures [] = []
failures (c ∷ cs) = (if c.passed then [] else c.reason_codes) ++ failures cs

unfoldable pub validation_refs : List AdmissionCheckResult → List String
validation_refs [] = []
validation_refs (c ∷ cs) = c.validation_refs ++ validation_refs cs

-- `_expiry`
abbrev pub expiry : ℕ → ℕ → ℕ
expiry moment seconds = moment + seconds * 1000000

abbrev pub result_id_of : RunRecord → String
result_id_of run =
    Text.◌++◌ "run-admission:" (Text.◌++◌ run.run_id (Text.◌++◌ ":" (decimal run.revision)))

abbrev pub base_meta : RunRecord → ℕ → ContractMeta
base_meta run moment =
    let m =
      new_meta "RunAdmissionResult" (result_id_of run) run.meta.tenant_id moment "ueaf-admission"
        "0.1.0" in
    record m {
      task_id = some run.task_id;
      run_id = some run.run_id;
      trace_id = run.meta.trace_id;
      release_id = some run.release_id;
    }

abbrev pub result_with :
    AdmissionController
    → RunRecord
    → List AdmissionCheckResult
    → ℕ
    → AdmissionOutcome
    → List String
    → Option ℕ
    → RunAdmissionResult
result_with c run cs moment outcome reasons retry_after = record {
  meta = base_meta run moment;
  run_admission_result_id = result_id_of run;
  run_id = run.run_id;
  outcome = outcome;
  validation_refs = validation_refs cs;
  policy_decision_refs = c.policy_source.resolved_policy_decision_refs run.run_id;
  budget_snapshot_ref = run.budget_snapshot_ref;
  release_manifest_ref = some run.release_id;
  reason_codes = reasons;
  retry_after = retry_after;
  created_at = some moment;
  expires_at = some (expiry moment 300);
}

-- The result by the failures of the checks, before its constructor's own checks.
unfoldable pub decide :
    AdmissionController → RunRecord → List AdmissionCheckResult → ℕ → RunAdmissionResult
decide c run cs moment =
    if not (is_empty (failures cs))
    then result_with c run cs moment rejected (sorted_set (failures cs)) none
    else if same_phase run.phase queued && not c.capacity_ok
    then result_with c run cs moment deferred ("capacity_unavailable" ∷ [])
        (some (expiry moment 60))
    else result_with c run cs moment admitted ("admitted" ∷ []) none

abbrev finish : RunAdmissionResult → Result Error ContractMeta → Result Error RunAdmissionResult
finish r (ok m) = checked r (validate_result r)
finish r (err e) = err e

-- `evaluate` at the moment that `now or utcnow()` is. The metadata is built first.
unfoldable pub evaluate :
    AdmissionController
    → RunRecord
    → TaskEnvelope
    → BudgetEnvelope
    → PrincipalContext
    → ℕ
    → Result Error RunAdmissionResult
evaluate c run task budget principal moment =
    let m = base_meta run moment in
    finish (decide c run (checks c run task budget principal) moment) (checked m (validate_meta m))
