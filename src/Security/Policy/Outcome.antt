-- ===== src/Security/Policy/Outcome.antt =====
-- What a decision rests on, and the roles that it counts.
use mathlib.Core.List.{Memᴰ}
use agent_ueaf.Common.{
  ℕ, String, ◌≡◌, refl, subst, ◌≢◌, inl, inr, Bool, true, false, ◌&&◌, none, List, [], ◌∷◌, ◌++◌,
  arith, Bool_cases, str_eq, eq_iff, eq_refl,
}
use agent_ueaf.Common.Sets.{member, member-append}
use agent_ueaf.Admission.Principal.{PrincipalContext}
use agent_ueaf.Security.Policy.{
  PolicyOutcome, allow, ActionFingerprint, PolicyRule, Externals, is_allow, resource_matches,
  matching, any_approval, any_allow, all_required, share_role, decide_outcome, evaluate,
  validate_decision,
}

-- The rule is about the action and the resource of the fingerprint.
pub record Matches (x : Externals) (f : ActionFingerprint) (r : PolicyRule) : Type 0 where
  pub acts : r.action ≡ f.capability_ref
  pub covers : x.fnmatch f.resource r.resource_pattern ≡ true

-- The test that `matching` makes.
abbrev tested : Externals → ActionFingerprint → PolicyRule → Bool
tested x f r = str_eq r.action f.capability_ref && resource_matches x r.resource_pattern f.resource

is_allow_eq : (o : PolicyOutcome) → is_allow o ≡ true → o ≡ allow
is_allow_eq o h = ground arith

role_shared :
    (roles required : List String)
    → share_role roles required ≡ true
    → (role : String) × (member role roles ≡ true) × (member role required ≡ true)
unfolding share_role member
role_shared [] required h = absurd (cc)
role_shared (r ∷ rs) required h = elim (Bool_cases (member r required)) [
  | inl e ↦ (r, ground (arith, eq_refl r), e)
  | inr e ↦
      let (role, held, asked) = role_shared rs required (ground arith) in
      (role, ground arith, asked)
]

role_required :
    (role : String) (rules : List PolicyRule)
    → member role (all_required rules) ≡ true
    → (r : PolicyRule) × Memᴰ r rules × (member role r.required_roles ≡ true)
unfolding all_required member
role_required role [] h = absurd (cc)
role_required role (r ∷ rs) h = elim (Bool_cases (member role r.required_roles)) [
  | inl e ↦ (r, Memᴰ.head refl, e)
  | inr e ↦
      let (q, m, own) =
        role_required role rs
          (ground (arith, member-append role r.required_roles (all_required rs))) in
      (q, Memᴰ.tail m, own)
]

module _ (x : Externals) (f : ActionFingerprint) where
  tested-Matches : (r : PolicyRule) → tested x f r ≡ true → Matches x f r
  unfolding resource_matches
  tested-Matches r h = record {
    acts = ground (arith, eq_iff r.action f.capability_ref);
    covers = ground arith;
  }

  Matches-tested : (r : PolicyRule) → Matches x f r → tested x f r ≡ true
  unfolding resource_matches
  Matches-tested r h = ground (arith, eq_iff r.action f.capability_ref)

  allow_among :
      (rules : List PolicyRule)
      → any_allow (matching x rules f) ≡ true
      → (r : PolicyRule) × Memᴰ r rules × Matches x f r × (r.effect ≡ allow)
  unfolding any_allow matching
  allow_among [] h = absurd (cc)
  allow_among (r ∷ rs) h = elim (Bool_cases (tested x f r && is_allow r.effect)) [
    | inl good ↦
        (r, Memᴰ.head refl, tested-Matches r (ground arith), is_allow_eq r.effect (ground arith))
    | inr bad ↦ let (q, m, k, e) = allow_among rs (ground arith) in (q, Memᴰ.tail m, k, e)
  ]

  no_approval_among :
      (rules : List PolicyRule) (r : PolicyRule)
      → any_approval (matching x rules f) ≡ false
      → Memᴰ r rules
      → Matches x f r
      → r.require_approval ≡ false
  unfolding any_approval matching
  no_approval_among [] r h m k = elim m [ ]
  no_approval_among (q ∷ rs) r h (Memᴰ.head e) k =
      rw e (ground (arith, Matches-tested q (subst (Matches x f) e k)))
  no_approval_among (q ∷ rs) r h (Memᴰ.tail m) k = no_approval_among rs r (ground arith) m k

  -- Where the outcome is `allow`, some rule for the action and the resource has the effect `allow`,
  -- no rule for them asks for approval, and the principal has a role that some rule requires.
  pub allow_justified :
      (rules : List PolicyRule) (principal : PrincipalContext)
      → (decide_outcome x rules principal f).0 ≡ allow
      → ((r : PolicyRule) × Memᴰ r rules × Matches x f r × (r.effect ≡ allow))
        × ((r : PolicyRule) → Memᴰ r rules → Matches x f r → r.require_approval ≡ false)
        × ((role : String) × (r : PolicyRule) × (member role principal.roles ≡ true)
            × Memᴰ r rules
            × (member role r.required_roles ≡ true))
  unfolding decide_outcome
  allow_justified rules principal h = (
    allow_among rules (ground arith),
    λ r m k. no_approval_among rules r (ground arith) m k,
    let (role, held, asked) = role_shared principal.roles (all_required rules) (ground arith) in
        let (r, m, own) = role_required role rules asked in (role, r, held, m, own),
  )

  -- A principal with a single role is allowed an action by a rule for it whose effect is `allow`
  -- without approval and which does not require that role, if the only other rule, for another
  -- action, requires the role.
  pub allow_borrowed_role :
      (r other : PolicyRule) (principal : PrincipalContext) (role : String)
      → Matches x f r
      → r.effect ≡ allow
      → r.require_approval ≡ false
      → member role r.required_roles ≡ false
      → other.action ≢ f.capability_ref
      → member role other.required_roles ≡ true
      → principal.roles ≡ role ∷ []
      → (decide_outcome x (r ∷ other ∷ []) principal f).0 ≡ allow
  unfolding decide_outcome matching any_approval any_allow all_required share_role
  allow_borrowed_role r other principal role k e a lacks apart has only =
      rw (only, Matches-tested r k, e, a, other_tested)
        (ground (
          arith,
          member-append role r.required_roles (other.required_roles ++ []),
          member-append role other.required_roles [],
        ))
    where
      other_tested : tested x f other ≡ false
      other_tested = ground (arith, eq_iff other.action f.capability_ref)

-- Every decision of `evaluate` passes the checks of `PolicyDecision`.
evaluate_valid :
    (x : Externals) (rules : List PolicyRule) (principal : PrincipalContext) (f : ActionFingerprint)
    (producer_version environment decision_id : String) (moment : ℕ)
    → validate_decision
        (evaluate x producer_version rules principal f environment decision_id moment)
      ≡ none
unfolding validate_decision evaluate decide_outcome
evaluate_valid x rules principal f producer_version environment decision_id moment =
    ground (arith, eq_refl decision_id)
