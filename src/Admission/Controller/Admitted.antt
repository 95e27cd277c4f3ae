-- ===== src/Admission/Controller/Admitted.antt =====
-- Which runs the controller admits (src/ueaf/admission/controller.py).
use Prim.Native.String as Text
use agent_ueaf.Common.{
  ap, inl, inr, Option_cases, Decimal.decimal, ℕ, String, ◌≡◌, ◌≢◌, ◌↔◌, refl, true, false, none,
  List, [], ◌∷◌, ◌++◌, arith, truthy, or_text, All, eq_refl, if◌then◌else◌,
}
use agent_ueaf.Common.Exec.{ok}
use agent_ueaf.Common.Sets.{member}
use agent_ueaf.Contract.{validate_meta}
use agent_ueaf.Admission.Envelopes.{BudgetEnvelope, within}
use agent_ueaf.Admission.Principal.{PrincipalContext}
use agent_ueaf.Admission.Reasons.{sorted_set, place}
use agent_ueaf.Admission.Result.{admitted, deferred, RunAdmissionResult, validate_result}
use agent_ueaf.Admission.Task.{TaskEnvelope}
use agent_ueaf.Runtime.Phase.{admitting}
use agent_ueaf.Runtime.Record.{RunRecord}
use agent_ueaf.Admission.Controller.{
  AdmissionController, AdmissionCheckResult, check_release, check_policy, check_budget,
  check_region, check_binding, checks, overhead, failures, decide, evaluate, base_meta,
  result_id_of,
}

module _ (c : AdmissionController) (run : RunRecord) (task : TaskEnvelope) (budget : BudgetEnvelope)
    (principal : PrincipalContext) where
  pub record IsAdmittable : Type 0 where
    pub released : truthy run.release_id ≡ true
    pub usable : c.release_gate.lifecycle_is_usable run.release_id ≡ true
    pub compatible : c.release_gate.is_compatible run.release_id task ≡ true
    pub undenied : c.policy_source.any_deny run.run_id ≡ false
    pub decided : c.policy_source.resolved_policy_decision_refs run.run_id ≢ []
    pub budgeted : truthy (or_text run.budget_snapshot_ref "") ≡ true
    pub affordable : within budget (overhead c) ≡ true
    pub regional : All (λ r. member r c.region_allowlist ≡ true) principal.data_regions
    pub adapted : truthy run.runtime_adapter_ref ≡ true
    pub defined : truthy run.agent_ref ≡ true

-- Whether a check adds nothing to the failures.
abbrev Silent : AdmissionCheckResult → Type 0
Silent r = (if r.passed then [] else r.reason_codes) ≡ []

region_iff :
    (allowed regions : List String)
    → Silent (check_region allowed regions) ↔ All (λ r. member r allowed ≡ true) regions
unfolding check_region
region_iff allowed [] = (λ h. tt, λ h. refl)
region_iff allowed (r ∷ rs) = ground (arith, region_iff allowed rs)

append_iff : (xs ys : List String) → (xs ++ ys ≡ []) ↔ ((xs ≡ []) × (ys ≡ []))
append_iff [] ys = ground arith
append_iff (x ∷ xs) ys = ground arith

failures_iff :
    (r : AdmissionCheckResult) (rs : List AdmissionCheckResult)
    → (failures (r ∷ rs) ≡ []) ↔ (Silent r × (failures rs ≡ []))
unfolding failures
failures_iff r rs = append_iff (if r.passed then [] else r.reason_codes) (failures rs)

module _ (c : AdmissionController) (run : RunRecord) (task : TaskEnvelope) (budget : BudgetEnvelope)
    (principal : PrincipalContext) where
  release_iff : Silent (check_release c run task) ↔ (
      (truthy run.release_id ≡ true)
      × (c.release_gate.lifecycle_is_usable run.release_id ≡ true)
      × (c.release_gate.is_compatible run.release_id task ≡ true))
  unfolding check_release
  release_iff = ground arith

  policy_iff : Silent (check_policy c run) ↔ (
      (c.policy_source.any_deny run.run_id ≡ false)
      × (c.policy_source.resolved_policy_decision_refs run.run_id ≢ []))
  unfolding check_policy
  policy_iff = ground arith

  budget_iff :
      Silent (check_budget c run budget)
      ↔ ((truthy (or_text run.budget_snapshot_ref "") ≡ true) × (within budget (overhead c) ≡ true))
  unfolding check_budget
  budget_iff = ground arith

  binding_iff :
      Silent (check_binding run)
      ↔ ((truthy run.runtime_adapter_ref ≡ true) × (truthy run.agent_ref ≡ true))
  unfolding check_binding
  binding_iff = ground arith

  no_failure : failures [] ≡ []
  unfolding failures
  no_failure = refl

  checks_iff :
      (failures (checks c run task budget principal) ≡ [])
      ↔ IsAdmittable c run task budget principal
  unfolding checks
  checks_iff = ground (
    arith,
    no_failure,
    release_iff,
    policy_iff,
    budget_iff,
    binding_iff,
    region_iff c.region_allowlist principal.data_regions,
    failures_iff (check_release c run task) (
        check_policy c run
        ∷ check_budget c run budget
        ∷ check_region c.region_allowlist principal.data_regions
        ∷ check_binding run
        ∷ []),
    failures_iff (check_policy c run) (
        check_budget c run budget
        ∷ check_region c.region_allowlist principal.data_regions
        ∷ check_binding run
        ∷ []),
    failures_iff (check_budget c run budget)
        (check_region c.region_allowlist principal.data_regions ∷ check_binding run ∷ []),
    failures_iff (check_region c.region_allowlist principal.data_regions) (check_binding run ∷ []),
    failures_iff (check_binding run) [],
  )

Nonempty-place : (x : String) (l : List String) → place x l ≢ []
unfolding place
Nonempty-place x [] = ground arith
Nonempty-place x (y ∷ ys) = ground arith

Nonempty-sorted_set : (l : List String) → l ≢ [] → sorted_set l ≢ []
unfolding sorted_set
Nonempty-sorted_set [] h = h
Nonempty-sorted_set (x ∷ xs) h = Nonempty-place x (sorted_set xs)

module _ (c : AdmissionController) (run : RunRecord) (moment : ℕ) where
  -- The constructor's checks pass.
  decide_valid : (cs : List AdmissionCheckResult) → validate_result (decide c run cs moment) ≡ none
  unfolding decide validate_result
  decide_valid cs = ground (arith, eq_refl (result_id_of run), Nonempty-sorted_set (failures cs))

  decide_admitting :
      (cs : List AdmissionCheckResult)
      → run.phase ≡ admitting
      → ((decide c run cs moment).outcome ≢ deferred)
        × (((decide c run cs moment).outcome ≡ admitted) ↔ (failures cs ≡ []))
  unfolding decide
  decide_admitting cs h = ground arith

  -- Whatever it returns is what the checks decide.
  pub evaluated :
      (task : TaskEnvelope) (budget : BudgetEnvelope) (principal : PrincipalContext)
      (r : RunAdmissionResult)
      → evaluate c run task budget principal moment ≡ ok r
      → r ≡ decide c run (checks c run task budget principal) moment
  unfolding evaluate
  evaluated task budget principal r h = elim (Option_cases (validate_meta (base_meta run moment))) [
    | inl e ↦ ground (arith, h, e, decide_valid (checks c run task budget principal))
    | inr (message, e) ↦ absurd (ground (arith, h, e))
  ]

  -- In the phase of admission the capacity is not asked for.
  pub evaluated_admitting :
      (task : TaskEnvelope) (budget : BudgetEnvelope) (principal : PrincipalContext)
      (r : RunAdmissionResult)
      → evaluate c run task budget principal moment ≡ ok r
      → run.phase ≡ admitting
      → (r.outcome ≢ deferred) × ((r.outcome ≡ admitted) ↔ IsAdmittable c run task budget principal)
  evaluated_admitting task budget principal r e h =
      let cs = checks c run task budget principal in
      let d = ap (λ x. x.outcome) (evaluated task budget principal r e) in
      ground (arith, d, decide_admitting cs h, checks_iff c run task budget principal)
