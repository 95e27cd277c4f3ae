-- ===== src/Release/Decisions.antt =====
-- Candidates and decisions of releases (src/ueaf/release/release.py) and the decisions of
-- the three gates (src/ueaf/eval/eval.py).
use agent_ueaf.Common.{
  ℕ, String, Bool, true, false, not, Option, none, some, List, str_eq, if◌then◌else◌,
}
use agent_ueaf.Contract.{ContractMeta}

pub data GateOutcome : Type 0 where
  pass fail inconclusive : GateOutcome

abbrev pub is_pass : GateOutcome → Bool
is_pass pass = true
is_pass _ = false

pub record QualityGateDecision : Type 0 where
  pub meta : ContractMeta
  pub quality_gate_decision_id : String
  pub outcome : GateOutcome
  pub scope : String
  pub eval_result_ref : String
  pub evidence_refs : List String
  pub expires_at : Option ℕ
  pub reason_codes : List String

pub record SecurityGateDecision : Type 0 where
  pub meta : ContractMeta
  pub security_gate_decision_id : String
  pub outcome : GateOutcome
  pub scope : String
  pub evidence_refs : List String
  pub expires_at : Option ℕ
  pub reason_codes : List String

pub record OperationalReadinessDecision : Type 0 where
  pub meta : ContractMeta
  pub operational_readiness_decision_id : String
  pub outcome : GateOutcome
  pub scope : String
  pub evidence_refs : List String
  pub expires_at : Option ℕ
  pub reason_codes : List String

pub record ReleaseCandidate : Type 0 where
  pub meta : ContractMeta
  pub release_candidate_id : String
  pub environment : String
  pub digest : String
  pub version_graph_ref : Option String

-- `ReleaseCandidate.__post_init__`
unfoldable pub validate_candidate : ReleaseCandidate → Option String
validate_candidate c =
    if not (str_eq c.release_candidate_id c.meta.object_id)
    then some "ReleaseCandidate.meta.object_id must equal id"
    else none

pub data DecisionOutcome : Type 0 where
  approved rejected deferred : DecisionOutcome

abbrev pub is_approved : DecisionOutcome → Bool
is_approved approved = true
is_approved _ = false

pub record ReleaseDecision : Type 0 where
  pub meta : ContractMeta
  pub release_decision_id : String
  pub outcome : DecisionOutcome
  pub manifest_candidate_ref : String
  pub condition_refs : List String
  pub reason_codes : List String

-- `ReleaseDecision.__post_init__`
unfoldable pub validate_decision : ReleaseDecision → Option String
validate_decision d =
    if not (str_eq d.release_decision_id d.meta.object_id)
    then some "ReleaseDecision.meta.object_id must equal id"
    else none
