-- ===== src/Evolution/Validator/Admissible.antt =====
-- Which proposals the validator lets pass (src/ueaf/evolution/validator.py).
use mathlib.Core.List.{Memᴰ}
use text.Mathlib.Text.{starts_with}
use agent_ueaf.Common.{
  ◌≤◌, String, ◌≡◌, ◌≢◌, ◌↔◌, ◌⊎◌, inl, inr, refl, Bool, true, false, ◌==◌, Option, none, some,
  is_some, Dict.lookup, List, [], ◌∷◌, All, arith, length, eq_iff, eq_refl, Bool_cases,
}
use agent_ueaf.Common.Sets.{member, add}
use agent_ueaf.Evolution.Objects.{
  Value, string, number, truth, other, MutationRepairLevel, same_level, SubjectProfile,
  MutationPatch, MutationProposal,
}
use agent_ueaf.Evolution.Validator.{
  MutationValidator, targets, has_level, range_error, shape_error, patch_error, first_error,
  validate, verdict, out_of_range,
}

-- The operation is one of the three, and the patch has the values that it needs.
pub record IsShaped {N : Type 0} (p : MutationPatch N) : Type 0 where
  pub known : (p.operation ≡ "add") ⊎ (p.operation ≡ "remove") ⊎ (p.operation ≡ "replace")
  pub adds : p.operation ≡ "add" → p.after ≢ none
  pub removes : p.operation ≡ "remove" → p.before ≢ none
  pub replaces : p.operation ≡ "replace" → ¬ ((p.before ≡ none) × (p.after ≡ none))

is_some_iff : {A : Type 0} (o : Option A) → (is_some o ≡ true) ↔ (o ≢ none)
is_some_iff none = (λ h. absurd cc, λ h. absurd (h refl))
is_some_iff (some a) = (λ _ e. cc, λ _. refl)

shape_error_iff : {N : Type 0} (p : MutationPatch N) → (shape_error p ≡ none) ↔ IsShaped p
unfolding shape_error
shape_error_iff p = ground (
  arith,
  eq_iff p.operation "add",
  eq_iff p.operation "remove",
  eq_iff p.operation "replace",
  is_some_iff p.before,
  is_some_iff p.after,
)

same_level_sound : (r q : MutationRepairLevel) → same_level r q ≡ true → r ≡ q
same_level_sound r q h = ground arith

has_level_of :
    (r q : MutationRepairLevel) (qs : List MutationRepairLevel)
    → (Memᴰ r qs → has_level r qs ≡ true)
    → Memᴰ r (q ∷ qs)
    → has_level r (q ∷ qs) ≡ true
has_level_of r q qs rest (Memᴰ.head e) = ground arith
has_level_of r q qs rest (Memᴰ.tail m) = ground (arith, rest m)

has_level_iff :
    (r : MutationRepairLevel) (levels : List MutationRepairLevel)
    → (has_level r levels ≡ true) ↔ Memᴰ r levels
has_level_iff r [] = (λ h. absurd cc, λ m. elim m [ ])
has_level_iff r (q ∷ qs) = (
  λ h. elim (Bool_cases (same_level r q)) [
    | inl same ↦ Memᴰ.head (same_level_sound r q same)
    | inr apart ↦ Memᴰ.tail ((has_level_iff r qs).0 (ground arith))
  ],
  λ m. has_level_of r q qs (has_level_iff r qs).1 m,
)

module _ {N : Type 0} (below : N → N → Bool) where
  -- A value within the bounds, if there are bounds: a number between them, or no number. Python
  -- counts the Booleans among the numbers, and none of them is within bounds.
  pub record IsWithin (bounds : Option (N × N)) (value : Option (Value N)) : Type 0 where
    pub above_low :
        (low high n : N) → bounds ≡ some (low, high) → value ≡ some (number n) → below n low ≡ false
    pub below_high :
        (low high n : N)
        → bounds ≡ some (low, high)
        → value ≡ some (number n)
        → below high n ≡ false
    pub untruth : (low high : N) (b : Bool) → bounds ≡ some (low, high) → value ≢ some (truth b)

  IsWithin_lem :
      (bounds : Option (N × N)) (value : Option (Value N))
      → out_of_range below bounds value ≡ false
      → IsWithin bounds value
  IsWithin_lem bounds value h = record {
    above_low = λ low high n e k. let h' = rw (e, k) at h in ground arith;
    below_high = λ low high n e k. let h' = rw (e, k) at h in ground arith;
    untruth = λ low high b e k. let h' = rw (e, k) at h in absurd (ground arith);
  }

  Within_of :
      (bounds : Option (N × N)) (value : Option (Value N))
      → IsWithin bounds value
      → out_of_range below bounds value ≡ false
  Within_of none value h = refl
  Within_of (some (low, high)) none h = refl
  Within_of (some (low, high)) (some (string t)) h = refl
  Within_of (some (low, high)) (some (other t)) h = refl
  Within_of (some (low, high)) (some (truth b)) h = absurd (h.untruth low high b refl refl)
  Within_of (some (low, high)) (some (number n)) h =
      ground (arith, h.above_low low high n refl refl, h.below_high low high n refl refl)

range_error_iff :
    {N : Type 0} (below : N → N → Bool) (s : SubjectProfile N) (p : MutationPatch N)
    → (range_error below s p ≡ none) ↔ IsWithin below (lookup p.path s.field_ranges) p.after
unfolding range_error
range_error_iff below s p =
    let bounds = lookup p.path s.field_ranges in
    ground (arith, IsWithin_lem below bounds p.after, Within_of below bounds p.after)

module _ {N : Type 0} (below : N → N → Bool) (v : MutationValidator N) where
  -- A patch within the declared surface.
  pub record IsSound (p : MutationPatch N) : Type 0 where
    pub unfrozen : member p.path v.subject.frozen_fields ≡ false
    pub ungoverned :
        v.authority.governance_kernel_frozen ≡ true → starts_with p.target_ref "governance" ≡ false
    pub declared : member p.path v.subject.mutable_fields ≡ true
    pub in_range : IsWithin below (lookup p.path v.subject.field_ranges) p.after
    pub shaped : IsShaped p

  pub record IsAdmissible (p : MutationProposal N) : Type 0 where
    pub permitted : v.authority.allow_mutation ≡ true
    pub changed : p.changes ≢ []
    pub single : All (λ c. c.target_ref ≡ p.target_ref) p.changes
    pub levelled : Memᴰ p.repair_level v.subject.allowed_repair_levels
    pub narrow : length p.changes ≤ v.subject.max_patch_fields
    pub sound : All IsSound p.changes

  patch_error_iff : (p : MutationPatch N) → (patch_error below v p ≡ none) ↔ IsSound p
  unfolding patch_error
  patch_error_iff p = ground (arith, range_error_iff below v.subject p, shape_error_iff p)

  first_error_iff : (ps : List (MutationPatch N)) → (first_error below v ps ≡ none) ↔ All IsSound ps
  unfolding first_error
  first_error_iff [] = (λ h. tt, λ h. refl)
  first_error_iff (p ∷ ps) = ground (arith, patch_error_iff p, first_error_iff ps)

Singleton_cases :
    (t : String) (s : List String) → (length s == 1) ≡ true → member t s ≡ true → s ≡ t ∷ []
unfolding member
Singleton_cases t [] h k = absurd (ground arith)
Singleton_cases t (x ∷ []) h k = ground (arith, eq_iff x t)
Singleton_cases t (x ∷ y ∷ s) h k = absurd (ground arith)

module _ {N : Type 0} (t : String) where
  targets-Nonempty : (p : MutationPatch N) (ps : List (MutationPatch N)) → targets (p ∷ ps) ≢ []
  unfolding targets add member
  targets-Nonempty p ps = ground (arith, Bool_cases (member p.target_ref (targets ps)))

  aimed_at : (ps : List (MutationPatch N)) → targets ps ≡ t ∷ [] → All (λ c. c.target_ref ≡ t) ps
  unfolding targets add member
  aimed_at [] h = tt
  aimed_at (p ∷ []) h = ground arith
  aimed_at (p ∷ q ∷ ps) h = ground (
    arith,
    Bool_cases (member p.target_ref (targets (q ∷ ps))),
    targets-Nonempty q ps,
    aimed_at (q ∷ ps),
    eq_iff t p.target_ref,
  )

  targets_aimed :
      (p : MutationPatch N) (ps : List (MutationPatch N))
      → All (λ c. c.target_ref ≡ t) (p ∷ ps)
      → targets (p ∷ ps) ≡ t ∷ []
  unfolding targets add member
  targets_aimed p [] h = ground arith
  targets_aimed p (q ∷ ps) h = ground (arith, targets_aimed q ps h.1, eq_refl t)

single_target_iff :
    {N : Type 0} (t : String) (ps : List (MutationPatch N))
    → (((length (targets ps) == 1) ≡ true) × (member t (targets ps) ≡ true))
      ↔ ((ps ≢ []) × All (λ c. c.target_ref ≡ t) ps)
unfolding targets member
single_target_iff t [] = ground arith
single_target_iff t (p ∷ ps) = (
  λ h. (ground arith, aimed_at t (p ∷ ps) (Singleton_cases t (targets (p ∷ ps)) h.0 h.1)),
  λ h. ground (arith, targets_aimed t p ps h.1, eq_refl t),
)

verdict_iff : (o : Option String) → ((verdict o).valid ≡ true) ↔ (o ≡ none)
verdict_iff o = ground arith

pub validate_iff :
    {N : Type 0} (below : N → N → Bool) (v : MutationValidator N) (p : MutationProposal N)
    → ((validate below v p).valid ≡ true) ↔ IsAdmissible below v p
unfolding validate
validate_iff below v p = ground (
  arith,
  single_target_iff p.target_ref p.changes,
  first_error_iff below v p.changes,
  has_level_iff p.repair_level v.subject.allowed_repair_levels,
)
