-- ===== src/Release/Controller.antt =====
-- The controller of releases (src/ueaf/release/release.py). `sha256_hex` is a parameter. The error is
-- the message of a `ReleaseActivationError` or of a `ValueError`.
pub mod Chain
use Prim.Native.String as Text
use agent_ueaf.Common.{
  ℕ, ◌+◌, String, Bool, true, false, not, Option, none, some, List, [], ◌∷◌, str_eq, truthy,
  if◌then◌else◌, Dict.Dict, Dict.lookup, Dict.insert,
}
use agent_ueaf.Common.Exec.{ok, built, Exec, pure, lift, gets, require_that, ◌>>=◌, ◌>>◌}
use agent_ueaf.Contract.{World, object_id, ContractMeta, new_meta, validate_meta}
use agent_ueaf.Release.Decisions.{
  is_pass, QualityGateDecision, SecurityGateDecision, OperationalReadinessDecision,
  ReleaseCandidate, validate_candidate, is_approved, ReleaseDecision,
}
use agent_ueaf.Release.Manifest.{
  activated, rolled_back, is_activated, ReleaseManifest, validate_manifest,
}

pub record ReleaseState : Type 0 where
  pub manifests : Dict ReleaseManifest
  pub candidates : Dict ReleaseCandidate
  pub clock_reads : ℕ
  pub drawn : ℕ

abbrev pub M : Type 0 → Type 0
M = Exec ReleaseState String

-- What surrounds a controller, and the version it was made with.
pub record ReleaseController : Type 0 where
  pub world : World
  pub sha256_hex : String → String
  pub producer_version : String

unfoldable pub draw : World → String → M String
draw w prefix s = (ok (object_id w prefix s.drawn), record s { drawn = s.drawn + 1 })

unfoldable pub read_clock : World → M ℕ
read_clock w s = (ok (w.now s.clock_reads), record s { clock_reads = s.clock_reads + 1 })

abbrev pub release_meta : ReleaseController → String → String → ℕ → ContractMeta
release_meta c name oid moment =
    new_meta name oid "tenant-release" moment "ueaf-release" c.producer_version

put_candidate : ReleaseCandidate → M ReleaseCandidate
put_candidate r s = (ok r, record s { candidates = insert r.release_candidate_id r s.candidates })

put_manifest : ReleaseManifest → M ReleaseManifest
put_manifest m s = (ok m, record s { manifests = insert m.release_id m s.manifests })

-- `build_candidate`
unfoldable pub build_candidate : ReleaseController → String → Option String → M ReleaseCandidate
unfolding put_candidate
build_candidate c environment version_graph_ref = do
  candidate_id ← draw c.world "candidate"
  moment ← read_clock c.world
  let m = release_meta c "ReleaseCandidate" candidate_id moment
  m ← lift (built m (validate_meta m))
  let r : ReleaseCandidate = record {
    meta = m;
    release_candidate_id = candidate_id;
    environment = environment;
    digest = c.sha256_hex candidate_id;
    version_graph_ref = version_graph_ref;
  }
  r ← lift (built r (validate_candidate r))
  put_candidate r

-- The keyword arguments of `activate`.
pub record Activation : Type 0 where
  pub candidate : ReleaseCandidate
  pub quality : QualityGateDecision
  pub security : SecurityGateDecision
  pub operational : OperationalReadinessDecision
  pub release_decision : ReleaseDecision
  pub environment : String

-- `ReleaseActivationVerifier.verify_integrity` on an object with metadata
abbrev pub verify_integrity : String → ContractMeta → Bool
verify_integrity name m = str_eq m.contract_name name

-- `ReleaseActivationVerifier.verify_authority_role_and_trust`, which reads the authority alone
abbrev pub verify_authority : String → Bool
verify_authority authority_ref = truthy authority_ref

-- The first error of the chain.
unfoldable pub chain_error : Activation → Option String
chain_error a =
    if not (verify_integrity "ReleaseCandidate" a.candidate.meta)
    then some "candidate integrity failed"
    else if not (verify_integrity "ReleaseDecision" a.release_decision.meta)
    then some "release decision integrity failed"
    else if not (is_pass a.quality.outcome)
    then some "quality gate not pass"
    else if not (is_pass a.security.outcome)
    then some "security gate not pass"
    else if not (is_pass a.operational.outcome)
    then some "operational readiness not pass"
    else if not (is_approved a.release_decision.outcome)
    then some "release decision not approved"
    else if not (str_eq a.release_decision.manifest_candidate_ref a.candidate.release_candidate_id)
    then some "release decision does not bind candidate"
    else if not (verify_authority "release-governance")
    then some "release authority not trusted"
    else none

abbrev pub manifest_meta : ReleaseController → String → ℕ → ContractMeta
manifest_meta c release_id moment =
    let m = release_meta c "ReleaseManifest" release_id moment in
    record m { integrity_ref = some (c.sha256_hex release_id) }

abbrev pub manifest_of : ReleaseController → Activation → ContractMeta → String → ReleaseManifest
manifest_of c a m release_id = record {
  meta = m;
  release_id = release_id;
  environment = a.environment;
  lifecycle = activated;
  agent_versions = Text.◌++◌ "agent:" a.candidate.release_candidate_id ∷ [];
  prompt_versions = "prompt:1.0.0" ∷ [];
  schema_versions = "schema:1.0.0" ∷ [];
  model_route_versions = "route:1.0.0" ∷ [];
  capability_versions = "capability:1.0.0" ∷ [];
  adapter_versions = "adapter:langgraph@1.0.0" ∷ [];
  knowledge_index_versions = [];
  memory_policy_versions = [];
  policy_versions = [];
  quality_gate_decision_ref = some a.quality.quality_gate_decision_id;
  security_gate_decision_ref = some a.security.security_gate_decision_id;
  operational_readiness_decision_ref = some a.operational.operational_readiness_decision_id;
  release_decision_ref = some a.release_decision.release_decision_id;
  integrity_ref =
      some (c.sha256_hex (Text.◌++◌ release_id (Text.◌++◌ ":" a.candidate.release_candidate_id)));
  rollout_plan_ref = none;
  rollback_to_ref = none;
  observation_window_millis = none;
}

-- `activate`
unfoldable pub activate : ReleaseController → Activation → M ReleaseManifest
unfolding put_manifest
activate c a = do
  lift (built a (chain_error a))
  release_id ← draw c.world "release"
  moment ← read_clock c.world
  let m = manifest_meta c release_id moment
  m ← lift (built m (validate_meta m))
  let r = manifest_of c a m release_id
  r ← lift (built r (validate_manifest r))
  put_manifest r

-- The copy that `rollback` makes: the plan and the window are not passed on.
abbrev pub rolled : ReleaseManifest → String → ReleaseManifest
rolled m to_ref = record m {
  lifecycle = rolled_back;
  rollout_plan_ref = none;
  rollback_to_ref = some to_ref;
  observation_window_millis = none;
}

-- `rollback`; the reasons, which the code does not read, are left out.
unfoldable pub rollback : ReleaseManifest → String → M ReleaseManifest
unfolding put_manifest
rollback m to_ref = do
  lift (require_that (is_activated m.lifecycle) "only activated manifests can roll back")
  let r = rolled m to_ref
  r ← lift (built r (validate_manifest r))
  put_manifest r

-- `get`
unfoldable pub get : String → M (Option ReleaseManifest)
get release_id = gets (λ s. lookup release_id s.manifests)
