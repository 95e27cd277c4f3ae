-- ===== src/Admission/Task.antt =====
-- The task that a run carries out (`TaskEnvelope` of src/ueaf/admission/objects.py). The values of
-- `constraints`, which no code reads, are texts here.
use agent_ueaf.Common.{
  ℕ, String, not, Option, none, some, List, str_eq, truthy, is_empty, ltb, if◌then◌else◌, Dict.Dict,
}
use agent_ueaf.Contract.{ContractMeta}

pub data RiskClass : Type 0 where
  compute_only read_only reversible_write high_risk_write : RiskClass

pub record TaskEnvelope : Type 0 where
  pub meta : ContractMeta
  pub task_id : String
  pub request_refs : List String
  pub goal : String
  pub completion_criteria : List String
  pub constraints : Dict String
  pub risk_class : RiskClass
  pub owner_ref : String
  pub budget_ref : String
  pub revision : ℕ

-- `TaskEnvelope.__post_init__`
unfoldable pub validate_task : TaskEnvelope → Option String
validate_task t =
    if not (str_eq t.task_id t.meta.object_id)
    then some "TaskEnvelope.meta.object_id must equal task_id"
    else if not (truthy t.goal)
    then some "TaskEnvelope.goal must not be empty"
    else if is_empty t.completion_criteria
    then some "TaskEnvelope.completion_criteria must not be empty"
    else if ltb t.revision 1
    then some "TaskEnvelope.revision must be >= 1"
    else none

abbrev risk_of_alias : String → Option RiskClass
risk_of_alias legacy =
    if str_eq legacy "R0"
    then some compute_only
    else if str_eq legacy "R1"
    then some read_only
    else if str_eq legacy "R2"
    then some reversible_write
    else if str_eq legacy "R3"
    then some high_risk_write
    else none

-- `with_legacy_risk_alias`, on a task whose constructor's checks passed; none of them reads the risk
-- class, so that they pass for the copy too. `none` is the `ValueError` of an unknown alias.
unfoldable pub with_legacy_risk_alias : TaskEnvelope → String → Option TaskEnvelope
with_legacy_risk_alias t legacy = elim (risk_of_alias legacy) [
  | none ↦ none
  | some risk ↦ some (record t { risk_class = risk })
]
