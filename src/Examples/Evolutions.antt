-- ===== src/Examples/Evolutions.antt =====
-- A kernel of evolution, its subject and a trigger (src/ueaf/evolution).
use agent_ueaf.Common.{ℕ, ◌≡◌, refl, true, none, some, [], ◌∷◌, arith, ltb}
use agent_ueaf.Common.Exec.{ok, ◌>>=◌}
use agent_ueaf.Contract.{new_meta, starts_upper, validate_meta}
use agent_ueaf.Examples.Data.{world}
use agent_ueaf.Evolution.Objects.{
  string, number, r1, r2, EvolutionTrigger, EvolutionAuthorityPolicy, SubjectProfile,
  MutationProposal, proposed, validate_trigger,
}
use agent_ueaf.Evolution.Strategy.{StrategyInput}
use agent_ueaf.Evolution.Validator.{MutationValidator}
use agent_ueaf.Evolution.Kernel.{
  KernelState, EvolutionKernel, register_trigger, fresh_id, meta_of, read,
}
use agent_ueaf.Evolution.Kernel.Run.{run_evolution}
use agent_ueaf.Evolution.Kernel.Ending.{planned, Ends}
use agent_ueaf.Evolution.Kernel.Gate.{IsGated}
use agent_ueaf.Evolution.Kernel.Outcome.{run_evolution-Ends}
use agent_ueaf.Common.Sets.{member}
use agent_ueaf.Evolution.Kernel.Triggers.{trigger_of}
use agent_ueaf.Evolution.Kernel.Reach.{
  new_kernel, registers, evolves, here, then, Calls-IsGated, register_trigger_once,
}

abbrev subject : SubjectProfile ℕ
subject = record {
  meta = new_meta "SubjectProfile" "subject:1" "tenant" 5 "desk" "1.0.0";
  profile_id = "subject:1";
  subject_type = "agent";
  mutable_fields = "prompt" ∷ "limit" ∷ [];
  frozen_fields = "owner" ∷ [];
  allowed_repair_levels = r1 ∷ r2 ∷ [];
  max_patch_fields = 2;
  field_ranges = ("limit", (1, 10)) ∷ [];
}

abbrev authority : EvolutionAuthorityPolicy
authority = record {
  meta = new_meta "EvolutionAuthorityPolicy" "authority:1" "tenant" 5 "desk" "1.0.0";
  evolution_authority_policy_id = "authority:1";
  max_triggers_per_window = 4;
  cooldown_seconds = 3600;
  max_proposals_per_run = 1;
  allow_mutation = true;
  governance_kernel_frozen = true;
  r5_routes_governance = true;
}

abbrev validator : MutationValidator ℕ
validator = record { subject = subject; authority = authority }

abbrev kernel : EvolutionKernel ℕ
kernel = record {
  authority = authority;
  validator = validator;
  candidate_build_hook = none;
  now = λ n. n;
}

abbrev proposal : MutationProposal ℕ
proposal = record {
  meta = new_meta "MutationProposal" "mutation:1" "tenant" 5 "desk" "1.0.0";
  mutation_proposal_id = "mutation:1";
  trigger_ref = "trigger:1";
  run_ref = "";
  target_ref = "agent:1";
  repair_level = r1;
  change_summary = "lower the limit";
  changes =
      record {
        target_ref = "agent:1";
        path = "limit";
        operation = "replace";
        before = some (number 4);
        after = some (number 3);
        constraint_profile_ref = none;
      }
      ∷ [];
  status = proposed;
}

abbrev start : KernelState ℕ
start = new_kernel 0 0

abbrev input : StrategyInput ℕ
input = record {
  trigger_ref = "trigger:1";
  run_ref = "";
  target_ref = "agent:1";
  symptom_code = "quality";
  working_set = ("repair_field", string "limit") ∷ ("before", number 4) ∷ ("after", number 3) ∷ [];
  known_failed_fingerprints = [];
}

abbrev trigger : EvolutionTrigger
trigger = record {
  meta = new_meta "EvolutionTrigger" "trigger:1" "tenant" 5 "desk" "1.0.0";
  evolution_trigger_id = "trigger:1";
  candidate_ref = "candidate:1";
  reason_codes = "slow" ∷ [];
  evidence_refs = "evidence:1" ∷ [];
  cooldown_expires_at = none;
}

run_evolution-Ends_example :
    Ends ltb kernel start
      (planned trigger (some input))
      (run_evolution ltb world kernel trigger (some input))
      start
run_evolution-Ends_example =
    run_evolution-Ends ltb world kernel trigger (some input) start
      (λ hook e. absurd (ground (arith, e)))

abbrev registered : KernelState ℕ
registered =
    (register_trigger world kernel "candidate:1" ("slow" ∷ []) ("evidence:1" ∷ []) none start).1

abbrev evolved : KernelState ℕ
evolved = (run_evolution ltb world kernel trigger (some input) registered).1

Calls-IsGated_example : IsGated kernel evolved
Calls-IsGated_example = Calls-IsGated ltb world kernel 0 0 evolved (
    then (then here (registers "candidate:1" ("slow" ∷ []) ("evidence:1" ∷ []) none))
      (evolves trigger (some input)))

abbrev first_trigger : EvolutionTrigger
first_trigger = trigger_of world start "candidate:1" ("slow" ∷ []) ("evidence:1" ∷ []) 3_600_000_000

-- The reading of the kernel's clock comes first.
abbrev second_reading : EvolutionTrigger
second_reading = record first_trigger {
  meta = record first_trigger.meta { created_at = 1_000_001 };
}

first_answer :
    (register_trigger world kernel "candidate:1" ("slow" ∷ []) ("evidence:1" ∷ []) none start).0
    ≡ ok (some second_reading)
unfolding register_trigger ◌>>=◌ fresh_id meta_of read starts_upper validate_meta validate_trigger
    member
first_answer = refl

register_trigger_once_example :
    register_trigger world kernel "candidate:1" ("broken" ∷ []) ("evidence:2" ∷ []) (some 0) evolved
    ≡ (ok none, evolved)
register_trigger_once_example =
    register_trigger_once ltb world kernel "candidate:1" ("slow" ∷ []) ("evidence:1" ∷ [])
      ("broken" ∷ []) ("evidence:2" ∷ []) none (some 0) start evolved second_reading first_answer
      (then here (evolves trigger (some input)))
