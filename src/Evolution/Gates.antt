-- ===== src/Evolution/Gates.antt =====
-- The gates of evolution (src/ueaf/evolution/gates.py). `below` is `<` on Python's numbers.
use Prim.Native.String as Text
use agent_ueaf.Common.{String, Bool, true, false, not, ◌||◌, List, [], ◌∷◌, is_empty, if◌then◌else◌}

pub data ObjectiveOutcome : Type 0 where
  improved not_improved inconclusive : ObjectiveOutcome

pub record ObjectiveDecision : Type 0 where
  pub outcome : ObjectiveOutcome
  pub reason_codes : List String

-- What an objective is measured by: the keyword arguments of `ObjectiveEvaluator.evaluate`.
pub record Measurement (N : Type 0) : Type 0 where
  pub quality_improved : Bool
  pub cost_millis : N
  pub latency_millis : N
  pub cost_guardrail_millis : N
  pub latency_guardrail_millis : N
  pub evidence_confidence : N
  pub confidence_threshold : N

-- `ObjectiveEvaluator.evaluate`
unfoldable pub evaluate_objective :
    {N : Type 0} → (N → N → Bool) → Measurement N → ObjectiveDecision
evaluate_objective below m =
    if below m.evidence_confidence m.confidence_threshold
    then record { outcome = inconclusive; reason_codes = "insufficient_evidence_confidence" ∷ [] }
    else if below m.cost_guardrail_millis m.cost_millis
        || below m.latency_guardrail_millis m.latency_millis
    then record { outcome = not_improved; reason_codes = "guardrail_exceeded" ∷ [] }
    else if not m.quality_improved
    then record { outcome = not_improved; reason_codes = "no_quality_gain" ∷ [] }
    else record { outcome = improved; reason_codes = "improved" ∷ [] }

pub record EscalationDecision : Type 0 where
  pub escalated : Bool
  pub scope : String
  pub reason_codes : List String

-- `EscalationPolicy.escalate`; the failure, which the code does not read, is left out.
unfoldable pub escalate : String → List String → EscalationDecision
escalate current_scope evidence_refs =
    if is_empty evidence_refs
    then record {
      escalated = false;
      scope = current_scope;
      reason_codes = "escalation_requires_evidence" ∷ [];
    }
    else record {
      escalated = true;
      scope = Text.◌++◌ current_scope "+";
      reason_codes = "escalated_with_evidence" ∷ [];
    }

pub record SupplyChainDecision : Type 0 where
  pub passed : Bool
  pub missing_checks : List String

pub record SupplyChecks : Type 0 where
  pub static_checked : Bool
  pub secret_checked : Bool
  pub sbom_checked : Bool
  pub sandbox_checked : Bool
  pub integration_checked : Bool
  pub security_checked : Bool

-- The name of a check that is missing, in front of those after it.
abbrev unless : Bool → String → List String → List String
unless true name rest = rest
unless false name rest = name ∷ rest

abbrev missing : SupplyChecks → List String
missing c = unless c.static_checked "static" (
    unless c.secret_checked "secret" (
      unless c.sbom_checked "sbom" (
        unless c.sandbox_checked "sandbox"
          (unless c.integration_checked "integration" (unless c.security_checked "security" [])))))

-- `SupplyChainGate.evaluate`
unfoldable pub evaluate_supply_chain : SupplyChecks → SupplyChainDecision
evaluate_supply_chain c = record { passed = is_empty (missing c); missing_checks = missing c }
