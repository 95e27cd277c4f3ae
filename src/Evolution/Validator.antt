-- ===== src/Evolution/Validator.antt =====
-- The validator of mutations (src/ueaf/evolution/validator.py). `below` is `<` on Python's numbers.
pub mod Admissible
use Prim.Native.String as Text
use text.Mathlib.Text.{starts_with}
use agent_ueaf.Common.{
  String, Bool, true, false, not, ◌&&◌, ◌||◌, ◌==◌, Option, none, some, List, [], ◌∷◌, length, ltb,
  is_some, str_eq, if◌then◌else◌, Dict.lookup,
}
use agent_ueaf.Common.Sets.{member, add}
use agent_ueaf.Evolution.Objects.{
  Value, string, number, truth, other, MutationRepairLevel, r1, r2, r3, r4, same_level,
  MutationPatch, MutationProposal, EvolutionAuthorityPolicy, SubjectProfile,
}

-- `valid` says that the code's `status` is "valid".
pub record MutationValidation : Type 0 where
  pub valid : Bool
  pub reason_codes : List String

abbrev pub rejection : String → MutationValidation
rejection code = record { valid = false; reason_codes = code ∷ [] }

pub record MutationValidator (N : Type 0) : Type 0 where
  pub subject : SubjectProfile N
  pub authority : EvolutionAuthorityPolicy

-- `{patch.target_ref for patch in proposal.changes}`
unfoldable pub targets : {N : Type 0} → List (MutationPatch N) → List String
targets [] = []
targets (p ∷ ps) = add p.target_ref (targets ps)

abbrev pub has_level : MutationRepairLevel → List MutationRepairLevel → Bool
has_level r [] = false
has_level r (q ∷ qs) = same_level r q || has_level r qs

-- `level` as it is written
abbrev level_text : MutationRepairLevel → String
level_text r1 = "r1"
level_text r2 = "r2"
level_text r3 = "r3"
level_text r4 = "r4"

-- `_shape_error`
unfoldable pub shape_error : {N : Type 0} → MutationPatch N → Option String
shape_error p =
    if not (str_eq p.operation "add" || str_eq p.operation "remove" || str_eq p.operation "replace")
    then some "invalid_operation"
    else if str_eq p.operation "replace" && not (is_some p.before) && not (is_some p.after)
    then some "replace_requires_before_and_after"
    else if str_eq p.operation "remove" && not (is_some p.before)
    then some "remove_requires_before"
    else if str_eq p.operation "add" && not (is_some p.after)
    then some "add_requires_after"
    else none

abbrev pub verdict : Option String → MutationValidation
verdict (some e) = rejection e
verdict none = record { valid = true; reason_codes = "sparse_and_in_scope" ∷ [] }

module _ {N : Type 0} (below : N → N → Bool) where
  -- A number outside its range, and every Boolean, which Python counts among the numbers.
  abbrev pub out_of_range : Option (N × N) → Option (Value N) → Bool
  out_of_range (some (low, high)) (some (number n)) = below n low || below high n
  out_of_range (some bounds) (some (truth b)) = true
  out_of_range (some bounds) (some (string t)) = false
  out_of_range (some bounds) (some (other t)) = false
  out_of_range (some bounds) none = false
  out_of_range none after = false

  -- `_range_error`
  unfoldable pub range_error : SubjectProfile N → MutationPatch N → Option String
  range_error s p =
      if out_of_range (lookup p.path s.field_ranges) p.after
      then some (Text.◌++◌ "out_of_range:" p.path)
      else none

  -- The round of the loop for one patch: the reason of its rejection.
  unfoldable pub patch_error : MutationValidator N → MutationPatch N → Option String
  patch_error v p =
      if member p.path v.subject.frozen_fields
      then some (Text.◌++◌ "frozen_field:" p.path)
      else if v.authority.governance_kernel_frozen && starts_with p.target_ref "governance"
      then some "governance_kernel_frozen"
      else if not (member p.path v.subject.mutable_fields)
      then some (Text.◌++◌ "undeclared_field:" p.path)
      else elim (range_error v.subject p) [ some e ↦ some e | none ↦ shape_error p ]

  unfoldable pub first_error : MutationValidator N → List (MutationPatch N) → Option String
  first_error v [] = none
  first_error v (p ∷ ps) = elim (patch_error v p) [ some e ↦ some e | none ↦ first_error v ps ]

  -- `validate`
  unfoldable pub validate : MutationValidator N → MutationProposal N → MutationValidation
  unfolding first_error
  validate v p =
      if not v.authority.allow_mutation
      then rejection "mutation_disabled_by_policy"
      else if not (length (targets p.changes) == 1)
      then rejection "multiple_repair_targets"
      else if not (member p.target_ref (targets p.changes))
      then rejection "patch_target_mismatch"
      else if not (has_level p.repair_level v.subject.allowed_repair_levels)
      then rejection (Text.◌++◌ "repair_level_not_allowed:" (level_text p.repair_level))
      else if ltb v.subject.max_patch_fields (length p.changes)
      then rejection "patch_too_wide"
      else verdict (first_error v p.changes)
