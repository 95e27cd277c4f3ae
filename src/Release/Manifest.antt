-- ===== src/Release/Manifest.antt =====
-- The manifests of releases (src/ueaf/release/release.py).
use agent_ueaf.Common.{
  ℕ, String, Bool, true, false, not, Option, none, some, List, str_eq, if◌then◌else◌,
}
use agent_ueaf.Contract.{ContractMeta}

pub data ManifestLifecycle : Type 0 where
  draft approved activated rolled_back withdrawn : ManifestLifecycle

abbrev pub is_activated : ManifestLifecycle → Bool
is_activated activated = true
is_activated _ = false

pub record ReleaseManifest : Type 0 where
  pub meta : ContractMeta
  pub release_id : String
  pub environment : String
  pub lifecycle : ManifestLifecycle
  pub agent_versions : List String
  pub prompt_versions : List String
  pub schema_versions : List String
  pub model_route_versions : List String
  pub capability_versions : List String
  pub adapter_versions : List String
  pub knowledge_index_versions : List String
  pub memory_policy_versions : List String
  pub policy_versions : List String
  pub quality_gate_decision_ref : Option String
  pub security_gate_decision_ref : Option String
  pub operational_readiness_decision_ref : Option String
  pub release_decision_ref : Option String
  pub integrity_ref : Option String
  pub rollout_plan_ref : Option String
  pub rollback_to_ref : Option String
  pub observation_window_millis : Option ℕ

-- `ReleaseManifest.__post_init__`
unfoldable pub validate_manifest : ReleaseManifest → Option String
validate_manifest m =
    if not (str_eq m.release_id m.meta.object_id)
    then some "ReleaseManifest.meta.object_id must equal release_id"
    else none
