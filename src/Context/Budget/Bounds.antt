-- ===== src/Context/Budget/Bounds.antt =====
-- How many tokens a budget that succeeds may use (src/ueaf/context/token_budgeter.py).
use agent_ueaf.Common.{
  ℕ, ◌+◌, ◌≤◌, ◌<◌, String, ◌≡◌, refl, subst, Bool, true, false, none, some, List, [], ◌∷◌, ◌++◌,
  All, arith, Bool_cases, Option_cases, inl, inr, str_eq, eq_iff, is_empty,
}
use agent_ueaf.Common.Sets.{member, add}
use agent_ueaf.Context.Budget.{
  insert_slot, SlotItem, Slot, SlotOutcome, TokenBudgeter, Fitting, empty_fitting, is_untouchable,
  fit_item, fit_items, fit_slots, budget, outcome_of, slot_tokens, critical_tokens, order_slots,
  dedupe_slots, unseen_items, sort_slots,
}
use agent_ueaf.Context.Budget.Order.{Ascends, order_slots-Ascends, All-insert_slot}
use agent_ueaf.Context.Budget.Items.{fit_items-cons, fit_items_whole}
use agent_ueaf.Context.Budget.Fit.{fit_slots-cons, fit_slots_stuck, budget_runs}

-- A slot that is critical by its mark has the tier 0.
abbrev pub IsTiered : Slot → Type 0
IsTiered s = s.is_critical ≡ true → s.tier ≡ 0

-- Behind a slot that may be cut there is none that may not.
abbrev CriticalFirst : List Slot → Type 0
CriticalFirst [] = Unit
CriticalFirst (s ∷ ss) =
    (is_untouchable s ≡ false → All (λ t. is_untouchable t ≡ false) ss) × CriticalFirst ss

free_behind :
    (n : ℕ) (ss : List Slot)
    → 0 < n
    → All (λ t. n ≤ t.tier) ss
    → All IsTiered ss
    → All (λ t. is_untouchable t ≡ false) ss
free_behind n [] p h k = tt
free_behind n (s ∷ ss) p h k = (
  elim (Bool_cases s.is_critical) [
    | inl marked ↦ absurd (omega (arith, p, h.0, k.0 marked))
    | inr plain ↦ ground arith
  ],
  free_behind n ss p h.1 k.1,
)

Ascends-CriticalFirst : (ss : List Slot) → Ascends ss → All IsTiered ss → CriticalFirst ss
Ascends-CriticalFirst [] h k = tt
Ascends-CriticalFirst (s ∷ ss) h k =
    (λ free. free_behind s.tier ss (ground arith) h.0 k.1, Ascends-CriticalFirst ss h.1 k.1)

sort_slots-IsTiered : (ss : List Slot) → All IsTiered ss → All IsTiered (sort_slots ss)
unfolding sort_slots
sort_slots-IsTiered [] h = tt
sort_slots-IsTiered (s ∷ ss) h =
    All-insert_slot IsTiered s (sort_slots ss) h.0 (sort_slots-IsTiered ss h.1)

dedupe_slots-IsTiered :
    (ss : List Slot) (seen : List String) → All IsTiered ss → All IsTiered (dedupe_slots ss seen)
unfolding dedupe_slots
dedupe_slots-IsTiered [] seen h = tt
dedupe_slots-IsTiered (s ∷ ss) seen h =
    let (items, after) = unseen_items s.items seen in
    elim (Bool_cases (is_empty items)) [
      | inl left ↦ rw left (dedupe_slots-IsTiered ss after h.1)
      | inr given ↦ rw given (h.0, dedupe_slots-IsTiered ss after h.1)
    ]

critical_tokens_free :
    (ss : List Slot) → All (λ t. is_untouchable t ≡ false) ss → critical_tokens ss ≡ 0
critical_tokens_free [] h = refl
critical_tokens_free (s ∷ ss) h = ground (arith, critical_tokens_free ss h.1)

module _ (b : TokenBudgeter) (max : ℕ) where
  -- The tokens leave room for the two reserves.
  abbrev pub HasRoom : ℕ → Type 0
  HasRoom tokens = tokens + b.critical_reserve_tokens + b.base_overhead_tokens ≤ max

  fit_items-HasRoom :
      (used : ℕ) (s : Slot) (is : List SlotItem) (f g : Fitting)
      → is_untouchable s ≡ false
      → fit_items b max used s is f ≡ some g
      → HasRoom (used + f.tokens)
      → HasRoom (used + g.tokens)
  unfolding fit_item fit_items
  fit_items-HasRoom used s [] f g free h room = ground arith
  fit_items-HasRoom used s (i ∷ is) f g free h room =
      let (e, first, rest) = fit_items-cons b max used s i is f g h in
      fit_items-HasRoom used s is e g free rest (ground arith)

  fit_slots_bounds :
      (before : ℕ) (ss : List Slot) (used : ℕ) (outcomes : List SlotOutcome)
      (omissions : List String)
      → CriticalFirst ss
      → HasRoom (used + critical_tokens ss)
      → let r = fit_slots b max before ss used outcomes omissions in
        r.failure ≡ none → r.budget_after + b.critical_reserve_tokens ≤ max
  fit_slots_bounds before [] used outcomes omissions c room h =
      unfold fit_slots in omega (arith, room)
  fit_slots_bounds before (s ∷ ss) used outcomes omissions c room h =
      elim (Option_cases (fit_items b max used s s.items empty_fitting)) [
        | inl stuck ↦ absurd (fit_slots_stuck b max before s ss used outcomes omissions stuck h)
        | inr (f, fitted) ↦
            let step = fit_slots-cons b max before s ss used outcomes omissions f fitted in
            let room' : HasRoom (used + f.tokens + critical_tokens ss) =
              elim (Bool_cases (is_untouchable s)) [
                | inl critical ↦
                    ground (arith, fit_items_whole b max used s s.items empty_fitting critical)
                | inr free ↦ ground (
                  arith,
                  critical_tokens_free ss (c.0 free),
                  fit_items-HasRoom used s s.items empty_fitting f free fitted (ground arith),
                )
              ] in
            rw step (
              fit_slots_bounds before ss (used + f.tokens) (outcomes ++ outcome_of s f ∷ [])
                (omissions ++ f.dropped) c.1 room' (subst (λ r. r.failure ≡ none) step h))
      ]

  -- Where every slot that is marked critical has the tier 0 and the budget succeeds, what is used,
  -- the overhead included, leaves the critical reserve free.
  pub budget_bounds :
      (slots : List Slot)
      → All IsTiered slots
      → (budget b max slots).failure ≡ none
      → (budget b max slots).budget_after + b.critical_reserve_tokens ≤ max
  unfolding order_slots
  budget_bounds slots tiered h =
      let ordered = order_slots slots in
      let first : CriticalFirst ordered =
        Ascends-CriticalFirst ordered (order_slots-Ascends slots)
          (dedupe_slots-IsTiered (sort_slots slots) [] (sort_slots-IsTiered slots tiered)) in
      let (under, runs) = budget_runs b max slots h in
      let before = b.base_overhead_tokens + slot_tokens ordered in
      rw runs (
        fit_slots_bounds before ordered 0 [] [] first (ground arith)
          (subst (λ r. r.failure ≡ none) runs h))

-- A slot with one item.
abbrev pub single : String → ℕ → ℕ → Bool → SlotItem → Slot
single name tier limit marked i = record {
  slot_ref = name;
  tier = tier;
  max_tokens = limit;
  items = i ∷ [];
  is_critical = marked;
}

-- A slot that is marked critical and comes behind another one, by its tier, is added to what that
-- one has used: two slots with one item each, each of which leaves room for the reserves alone, are
-- both kept whole, and the tokens used are those of both, whatever the limit is.
pub critical_slot_overflows :
    (b : TokenBudgeter) (max n m limit limit' : ℕ) (p q : String) (i j : SlotItem)
    → 0 < n
    → n < m
    → str_eq i.ref j.ref ≡ false
    → i.tokens ≤ limit
    → HasRoom b max i.tokens
    → HasRoom b max j.tokens
    → let r = budget b max (single p n limit false i ∷ single q m limit' true j ∷ []) in
      (r.failure ≡ none) × (r.budget_after ≡ i.tokens + j.tokens + b.base_overhead_tokens)
unfolding budget order_slots sort_slots insert_slot dedupe_slots unseen_items fit_slots fit_items
    fit_item member add
critical_slot_overflows b max n m limit limit' p q i j pos below apart le room room' =
    ground (arith, eq_iff i.ref j.ref, eq_iff j.ref i.ref)
