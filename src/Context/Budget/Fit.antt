-- ===== src/Context/Budget/Fit.antt =====
-- What a budget that succeeds keeps and drops of each slot (src/ueaf/context/token_budgeter.py).
use mathlib.Core.List.{append_assoc, append-nil}
use agent_ueaf.Common.{
  ℕ, ◌+◌, String, ◌≡◌, ◌∙◌, ap, sym, subst, false, none, some, List, [], ◌∷◌, ◌++◌, arith,
  Bool_cases, Option_cases, inl, inr,
}
use agent_ueaf.Context.Budget.{
  Slot, SlotOutcome, TokenBudgeter, Fitting, empty_fitting, fit_items, fit_slots, budget,
  outcome_of, slot_tokens, critical_tokens, order_slots, exceeds,
}
use agent_ueaf.Context.Budget.Items.{Fits, fit_items-Fits}

-- One outcome for each slot, in order.
abbrev pub Fitted : List Slot → List SlotOutcome → Type 0
Fitted [] [] = Unit
Fitted [] (o ∷ os) = ⊥
Fitted (s ∷ ss) [] = ⊥
Fitted (s ∷ ss) (o ∷ os) = Fits s o × Fitted ss os

abbrev pub all_dropped : List SlotOutcome → List String
all_dropped [] = []
all_dropped (o ∷ os) = o.dropped ++ all_dropped os

module _ (b : TokenBudgeter) (max before : ℕ) where
  pub fit_slots-cons :
      (s : Slot) (ss : List Slot) (used : ℕ) (outcomes : List SlotOutcome) (omissions : List String)
      (f : Fitting)
      → fit_items b max used s s.items empty_fitting ≡ some f
      → fit_slots b max before (s ∷ ss) used outcomes omissions
        ≡ fit_slots b max before ss
            (used + f.tokens)
            (outcomes ++ outcome_of s f ∷ [])
            (omissions ++ f.dropped)
  unfolding fit_slots
  fit_slots-cons s ss used outcomes omissions f h = rw (h, fit_slots)

  pub fit_slots_stuck :
      (s : Slot) (ss : List Slot) (used : ℕ) (outcomes : List SlotOutcome) (omissions : List String)
      → fit_items b max used s s.items empty_fitting ≡ none
      → (fit_slots b max before (s ∷ ss) used outcomes omissions).failure ≡ none
      → ⊥
  unfolding fit_slots
  fit_slots_stuck s ss used outcomes omissions h = rw (h, fit_slots) λ e. cc e

  -- The loop over the slots adds an outcome for each of them.
  fit_slots-Fitted :
      (ss : List Slot) (used : ℕ) (outcomes : List SlotOutcome) (omissions : List String)
      → let r = fit_slots b max before ss used outcomes omissions in
        r.failure ≡ none
        → (os : List SlotOutcome) × (r.fitted ≡ outcomes ++ os)
          × Fitted ss os
          × (r.omissions ≡ omissions ++ all_dropped os)
  fit_slots-Fitted [] used outcomes omissions h =
      unfold fit_slots in ([], sym (append-nil outcomes), tt, sym (append-nil omissions))
  fit_slots-Fitted (s ∷ ss) used outcomes omissions h =
      elim (Option_cases (fit_items b max used s s.items empty_fitting)) [
        | inl stuck ↦ absurd (fit_slots_stuck s ss used outcomes omissions stuck h)
        | inr (f, fitted) ↦
            let o = outcome_of s f in
            let step = fit_slots-cons s ss used outcomes omissions f fitted in
            let (os, e, k, d) =
              fit_slots-Fitted ss (used + f.tokens) (outcomes ++ o ∷ []) (omissions ++ f.dropped)
                (subst (λ r. r.failure ≡ none) step h) in
            (
              o ∷ os,
              ap (λ r. r.fitted) step ∙ e ∙ append_assoc outcomes (o ∷ []) os,
              (fit_items-Fits b max used s f fitted, k),
              ap (λ r. r.omissions) step ∙ d ∙ append_assoc omissions f.dropped (all_dropped os),
            )
      ]

-- A budget that succeeds has passed the test of the critical slots and run the loop.
pub budget_runs :
    (b : TokenBudgeter) (max : ℕ) (slots : List Slot)
    → let ordered = order_slots slots in
      let before = b.base_overhead_tokens + slot_tokens ordered in
      (budget b max slots).failure ≡ none
      → (exceeds b max (critical_tokens ordered) ≡ false)
        × (budget b max slots ≡ fit_slots b max before ordered 0 [] [])
unfolding budget
budget_runs b max slots h =
    elim (Bool_cases (exceeds b max (critical_tokens (order_slots slots)))) [
      | inl over ↦ absurd (ground arith)
      | inr under ↦ (under, rw under)
    ]

-- Where a budget succeeds, there is one outcome for each of the slots in order, which keeps a
-- critical slot whole, keeps another one within its limit, drops no critical negation, and splits the
-- slot's items in their order into those kept, whose tokens it counts, and those dropped; and the
-- omissions are what was dropped.
pub budget-Fitted :
    (b : TokenBudgeter) (max : ℕ) (slots : List Slot)
    → (budget b max slots).failure ≡ none
    → Fitted (order_slots slots) (budget b max slots).fitted
      × ((budget b max slots).omissions ≡ all_dropped (budget b max slots).fitted)
budget-Fitted b max slots h =
    let ordered = order_slots slots in
    let before = b.base_overhead_tokens + slot_tokens ordered in
    let (under, runs) = budget_runs b max slots h in
    let (os, e, k, d) =
      fit_slots-Fitted b max before ordered 0 [] [] (subst (λ r. r.failure ≡ none) runs h) in
    rw runs (subst (Fitted ordered) (sym e) k, d ∙ ap all_dropped (sym e))
