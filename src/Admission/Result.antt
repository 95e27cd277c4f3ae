-- ===== src/Admission/Result.antt =====
-- The aggregate result of a run's admission (src/ueaf/admission/controller.py).
use agent_ueaf.Common.{
  ℕ, String, Bool, true, false, not, Option, none, some, List, str_eq, is_some, is_empty, ltb, leb,
  ◌&&◌, if◌then◌else◌,
}
use agent_ueaf.Contract.{ContractMeta}

pub data AdmissionOutcome : Type 0 where
  admitted rejected deferred : AdmissionOutcome

pub record RunAdmissionResult : Type 0 where
  pub meta : ContractMeta
  pub run_admission_result_id : String
  pub run_id : String
  pub outcome : AdmissionOutcome
  pub validation_refs : List String
  pub policy_decision_refs : List String
  pub budget_snapshot_ref : Option String
  pub release_manifest_ref : Option String
  pub reason_codes : List String
  pub retry_after : Option ℕ
  pub created_at : Option ℕ
  pub expires_at : Option ℕ

abbrev pub is_deferred : AdmissionOutcome → Bool
is_deferred deferred = true
is_deferred _ = false

not_later : Option ℕ → Option ℕ → Bool
not_later (some expires) (some created) = leb expires created
not_later _ _ = false

-- `RunAdmissionResult.__post_init__`
unfoldable pub validate_result : RunAdmissionResult → Option String
unfolding not_later
validate_result r =
    if not (str_eq r.run_admission_result_id r.meta.object_id)
    then some "RunAdmissionResult.meta.object_id must equal id"
    else if is_empty r.reason_codes
    then some "RunAdmissionResult.reason_codes MUST be non-empty"
    else if not (is_some r.expires_at)
    then some "RunAdmissionResult.expires_at MUST be set (never infinite)"
    else if not_later r.expires_at r.created_at
    then some "RunAdmissionResult.expires_at must be later than created_at"
    else if is_deferred r.outcome && not (is_some r.retry_after)
    then some "deferred outcome SHOULD provide retry_after"
    else none

before : ℕ → Option ℕ → Bool
before moment none = false
before moment (some expires) = ltb moment expires

-- `RunAdmissionResult.is_valid_at`
unfoldable pub is_valid_at : RunAdmissionResult → ℕ → Bool
unfolding before
is_valid_at r moment = before moment r.expires_at
