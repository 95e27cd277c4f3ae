-- ===== src/Evolution/Strategy.antt =====
-- The sparse strategy (src/ueaf/evolution/strategy.py). A value of the working set that is `None` is
-- one that is not there.
use Prim.Native.String as Text
use text.Mathlib.Text.{starts_with}
use agent_ueaf.Common.{
  String, not, Option, none, some, List, [], ◌∷◌, truthy, if◌then◌else◌, Dict.Dict, Dict.lookup,
}
use agent_ueaf.Common.Sets.{member}
use agent_ueaf.Evolution.Objects.{Value, string, MutationPatch, MutationRepairLevel, r1}

pub record ProposalDraft (N : Type 0) : Type 0 where
  pub target_ref : String
  pub repair_level : MutationRepairLevel
  pub change_summary : String
  pub changes : List (MutationPatch N)

pub record StrategyInput (N : Type 0) : Type 0 where
  pub trigger_ref : String
  pub run_ref : String
  pub target_ref : String
  pub symptom_code : String
  pub working_set : Dict (Value N)
  pub known_failed_fingerprints : List String

-- The draft for the field, where nothing speaks against it.
unfoldable pub draft_for : {N : Type 0} → StrategyInput N → String → Option (ProposalDraft N)
draft_for input candidate_field =
    if not (truthy candidate_field)
    then none
    else if member (Text.◌++◌ input.target_ref (Text.◌++◌ ":" candidate_field))
        input.known_failed_fingerprints
    then none
    else if starts_with input.symptom_code "governance"
    then none
    else some (record {
      target_ref = input.target_ref;
      repair_level = r1;
      change_summary = Text.◌++◌ "sparse repair of " candidate_field;
      changes =
          record {
            target_ref = input.target_ref;
            path = candidate_field;
            operation = "replace";
            before = lookup "before" input.working_set;
            after = lookup "after" input.working_set;
            constraint_profile_ref = lookup "constraint_profile_ref" input.working_set;
          }
          ∷ [];
    })

abbrev pub of_field : {N : Type 0} → StrategyInput N → Option (Value N) → Option (ProposalDraft N)
of_field input (some (string candidate_field)) = draft_for input candidate_field
of_field input _ = none

-- `propose`
unfoldable pub propose : {N : Type 0} → StrategyInput N → Option (ProposalDraft N)
unfolding draft_for
propose input = of_field input (lookup "repair_field" input.working_set)
