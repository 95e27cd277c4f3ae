-- ===== src/Examples/Releases.antt =====
-- A candidate with its decisions, activated and rolled back (src/ueaf/release).
use agent_ueaf.Common.{String, ◌≡◌, ◌⊎◌, refl, none, some, [], Dict.lookup}
use agent_ueaf.Common.Exec.{ok, err}
use agent_ueaf.Contract.{new_meta}
use agent_ueaf.Examples.Data.{world}
use agent_ueaf.Release.Decisions.{pass, approved}
use agent_ueaf.Release.Manifest.{ReleaseManifest, rolled_back}
use agent_ueaf.Release.Controller.{ReleaseState, ReleaseController, Activation, activate, rollback}
use agent_ueaf.Release.Controller.Chain.{
  IsChained, IsActivation, manifest_at, activate_cases, rollback_again,
}

-- The digest of a text is the text here.
abbrev controller : ReleaseController
controller = record { world = world; sha256_hex = λ t. t; producer_version = "0.1.0" }

abbrev activation : Activation
activation = record {
  candidate = record {
    meta = new_meta "ReleaseCandidate" "candidate:1" "tenant" 5 "desk" "1.0.0";
    release_candidate_id = "candidate:1";
    environment = "staging";
    digest = "candidate:1";
    version_graph_ref = none;
  };
  quality = record {
    meta = new_meta "QualityGateDecision" "quality:1" "tenant" 5 "desk" "1.0.0";
    quality_gate_decision_id = "quality:1";
    outcome = pass;
    scope = "all";
    eval_result_ref = "eval:1";
    evidence_refs = [];
    expires_at = none;
    reason_codes = [];
  };
  security = record {
    meta = new_meta "SecurityGateDecision" "security:1" "tenant" 5 "desk" "1.0.0";
    security_gate_decision_id = "security:1";
    outcome = pass;
    scope = "all";
    evidence_refs = [];
    expires_at = none;
    reason_codes = [];
  };
  operational = record {
    meta = new_meta "OperationalReadinessDecision" "ready:1" "tenant" 5 "desk" "1.0.0";
    operational_readiness_decision_id = "ready:1";
    outcome = pass;
    scope = "all";
    evidence_refs = [];
    expires_at = none;
    reason_codes = [];
  };
  release_decision = record {
    meta = new_meta "ReleaseDecision" "decision:1" "tenant" 5 "desk" "1.0.0";
    release_decision_id = "decision:1";
    outcome = approved;
    manifest_candidate_ref = "candidate:1";
    condition_refs = [];
    reason_codes = [];
  };
  environment = "production";
}

abbrev start : ReleaseState
start = record { manifests = []; candidates = []; clock_reads = 0; drawn = 0 }

abbrev manifest : ReleaseManifest
manifest = manifest_at controller activation start

activate_cases_example :
    (IsChained activation
      × ((m : ReleaseManifest) × ((activate controller activation start).0 ≡ ok m)
          × (lookup m.release_id (activate controller activation start).1.manifests ≡ some m)
          × IsActivation controller activation "release:" m))
    ⊎ ((¬ IsChained activation)
        × ((message : String) × (activate controller activation start ≡ (err message, start))))
activate_cases_example = activate_cases controller activation start refl

rollback_again_example :
    let back_to : String → ReleaseManifest = λ ref. record manifest {
      lifecycle = rolled_back;
      rollback_to_ref = some ref;
      rollout_plan_ref = none;
      observation_window_millis = none;
    } in
    let s₁ = (rollback manifest "release:0" start).1 in
    let r = (rollback manifest "release:9" s₁).1 in
    (lookup manifest.release_id s₁.manifests ≡ some (back_to "release:0"))
    × ((rollback manifest "release:9" s₁).0 ≡ ok (back_to "release:9"))
    × (lookup manifest.release_id r.manifests ≡ some (back_to "release:9"))
rollback_again_example = rollback_again manifest "release:0" "release:9" start refl refl
