-- ===== src/Release/Controller/Chain.antt =====
-- Which activations and rollbacks succeed (src/ueaf/release/release.py).
use Prim.Native.String as Text
use agent_ueaf.Common.{
  ◌+◌, refl, [], ◌∷◌, String, ◌≡◌, ◌↔◌, ◌⊎◌, inl, inr, ap, true, none, some, arith, eq_refl, eq_iff,
  truthy, Option_cases, Dict.lookup, Dict.insert, Dict.lookup-insert_self,
}
use agent_ueaf.Common.Exec.{ok, err, ◌>>=◌}
use agent_ueaf.Contract.{object_id, starts_upper, validate_meta}
use agent_ueaf.Contract.Facts.{truthy-object_id}
use agent_ueaf.Release.Decisions.{pass, approved}
use agent_ueaf.Release.Manifest.{activated, rolled_back, ReleaseManifest, validate_manifest}
use agent_ueaf.Release.Controller.{
  ReleaseState, ReleaseController, Activation, chain_error, manifest_of, manifest_meta, activate,
  rollback, rolled, draw, read_clock,
}

-- Every link of the chain holds.
pub record IsChained (a : Activation) : Type 0 where
  pub candidate_named : a.candidate.meta.contract_name ≡ "ReleaseCandidate"
  pub decision_named : a.release_decision.meta.contract_name ≡ "ReleaseDecision"
  pub quality_passed : a.quality.outcome ≡ pass
  pub security_passed : a.security.outcome ≡ pass
  pub operational_passed : a.operational.outcome ≡ pass
  pub decided : a.release_decision.outcome ≡ approved
  pub bound : a.release_decision.manifest_candidate_ref ≡ a.candidate.release_candidate_id

-- The manifest is an active release of the activation, with the id.
pub record IsActivation (c : ReleaseController) (a : Activation) (id : String) (m : ReleaseManifest)
    : Type 0 where
  pub named : (m.release_id ≡ id) × (m.meta.object_id ≡ id)
  pub live : m.lifecycle ≡ activated
  pub placed : m.environment ≡ a.environment
  pub bound : m.agent_versions ≡ Text.◌++◌ "agent:" a.candidate.release_candidate_id ∷ []
  pub quality : m.quality_gate_decision_ref ≡ some a.quality.quality_gate_decision_id
  pub security : m.security_gate_decision_ref ≡ some a.security.security_gate_decision_id
  pub operational :
      m.operational_readiness_decision_ref ≡ some a.operational.operational_readiness_decision_id
  pub decision : m.release_decision_ref ≡ some a.release_decision.release_decision_id
  pub sealed :
      m.integrity_ref
      ≡ some (c.sha256_hex (Text.◌++◌ id (Text.◌++◌ ":" a.candidate.release_candidate_id)))
  pub unrolled : m.rollback_to_ref ≡ none

chain_error_iff : (a : Activation) → (chain_error a ≡ none) ↔ IsChained a
unfolding chain_error
chain_error_iff a = ground (
  arith,
  eq_iff a.candidate.meta.contract_name "ReleaseCandidate",
  eq_iff a.release_decision.meta.contract_name "ReleaseDecision",
  eq_iff a.release_decision.manifest_candidate_ref a.candidate.release_candidate_id,
)

module _ (c : ReleaseController) (a : Activation) (s : ReleaseState) where
  -- The manifest that an activation from the state makes.
  abbrev pub manifest_at : ReleaseManifest
  manifest_at =
      manifest_of c a
        (manifest_meta c (object_id c.world "release" s.drawn) (c.world.now s.clock_reads))
        (object_id c.world "release" s.drawn)

  activate_chained :
      truthy c.producer_version ≡ true
      → chain_error a ≡ none
      → activate c a s ≡ (
        ok manifest_at,
        record s {
          manifests = insert manifest_at.release_id manifest_at s.manifests;
          clock_reads = s.clock_reads + 1;
          drawn = s.drawn + 1;
        },
      )
  unfolding activate ◌>>=◌ draw read_clock starts_upper validate_meta validate_manifest
  activate_chained v h = rw (
    h,
    truthy-object_id c.world "release" s.drawn,
    v,
    eq_refl (object_id c.world "release" s.drawn),
  )

  activate_broken :
      (message : String) → chain_error a ≡ some message → activate c a s ≡ (err message, s)
  unfolding activate ◌>>=◌
  activate_broken message h = rw h

  -- With a version of the producer, `activate` fails closed: where every link of the chain holds it
  -- returns and stores, under the id that it drew, an activated manifest for the environment given
  -- that names the candidate's agent version and the four decisions and carries the digest of its id
  -- and the candidate's; where a link does not hold it raises and changes nothing.
  pub activate_cases :
      truthy c.producer_version ≡ true
      → (IsChained a
          × ((m : ReleaseManifest) × ((activate c a s).0 ≡ ok m)
              × (lookup m.release_id (activate c a s).1.manifests ≡ some m)
              × IsActivation c a (object_id c.world "release" s.drawn) m))
        ⊎ ((¬ IsChained a) × ((message : String) × (activate c a s ≡ (err message, s))))
  activate_cases v = elim (Option_cases (chain_error a)) [
    | inl e ↦ inl (
      (chain_error_iff a).0 e,
      (
        manifest_at,
        ap (λ x. x.0) (activate_chained v e),
        rw (activate_chained v e)
            (lookup-insert_self manifest_at.release_id manifest_at s.manifests),
        record {
          named = (refl, refl);
          live = refl;
          placed = refl;
          bound = refl;
          quality = refl;
          security = refl;
          operational = refl;
          decision = refl;
          sealed = refl;
          unrolled = refl;
        },
      ),
    )
    | inr (message, e) ↦ inr (
      (λ h. absurd (ground (arith, e, (chain_error_iff a).1 h))),
      (message, activate_broken message e),
    )
  ]

rollback_lem :
    (m : ReleaseManifest) (to_ref : String) (s : ReleaseState)
    → m.lifecycle ≡ activated
    → m.release_id ≡ m.meta.object_id
    → rollback m to_ref s ≡ (
      ok (rolled m to_ref),
      record s { manifests = insert m.release_id (rolled m to_ref) s.manifests },
    )
unfolding rollback ◌>>=◌ validate_manifest
rollback_lem m to_ref s h e = rw (h, e, eq_refl m.meta.object_id)

-- `rollback` reads the caller's copy alone: an activated copy, whose checks passed when it was made,
-- is rolled back from every state, also where the stored manifest has been rolled back before; the
-- later target then replaces the earlier one in the store, and the rollout plan and the observation
-- window are gone. The rest of the manifest is as in the copy.
pub rollback_again :
    (m : ReleaseManifest) (first second : String) (s : ReleaseState)
    → m.lifecycle ≡ activated
    → m.release_id ≡ m.meta.object_id
    → let back_to : String → ReleaseManifest = λ ref. record m {
      lifecycle = rolled_back;
      rollback_to_ref = some ref;
      rollout_plan_ref = none;
      observation_window_millis = none;
    } in
      let s₁ = (rollback m first s).1 in
      let r = (rollback m second s₁).1 in
      (lookup m.release_id s₁.manifests ≡ some (back_to first))
      × ((rollback m second s₁).0 ≡ ok (back_to second))
      × (lookup m.release_id r.manifests ≡ some (back_to second))
rollback_again m first second s h e =
    let s₁ = (rollback m first s).1 in
    (
      rw (rollback_lem m first s h e)
          (lookup-insert_self m.release_id (rolled m first) s.manifests),
      ap (λ x. x.0) (rollback_lem m second s₁ h e),
      rw (rollback_lem m second s₁ h e)
          (lookup-insert_self m.release_id (rolled m second) s₁.manifests),
    )
