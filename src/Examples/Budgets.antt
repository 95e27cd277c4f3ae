-- ===== src/Examples/Budgets.antt =====
-- A budgeter, two slots and their budget (src/ueaf/context/token_budgeter.py).
use agent_ueaf.Common.{
  ℕ, ◌+◌, ◌≤◌, String, ◌≡◌, refl, Bool, true, false, none, List, [], ◌∷◌, arith,
}
use agent_ueaf.Common.Sets.{member, add, Distinct}
use agent_ueaf.Context.Budget.{
  SlotItem, Slot, TokenBudgeter, order_slots, sort_slots, insert_slot, dedupe_slots, unseen_items,
  budget, fit_slots, fit_items, fit_item,
}
use agent_ueaf.Context.Budget.Bounds.{single, budget_bounds, critical_slot_overflows}
use agent_ueaf.Context.Budget.Fit.{Fitted, all_dropped, budget-Fitted}
use agent_ueaf.Context.Budget.Order.{all_refs, order_slots-Distinct}

abbrev budgeter : TokenBudgeter
budgeter = record {
  critical_reserve_tokens = 10;
  base_overhead_tokens = 5;
  rule_version = "1.0.0";
  lineage = record { max_depth = 2; records = [] };
}

abbrev item : String → ℕ → Bool → SlotItem
item ref tokens negation = record { ref = ref; tokens = tokens; critical_negation = negation }

abbrev rules : Slot
rules = record {
  slot_ref = "rules";
  tier = 0;
  max_tokens = 50;
  items = item "rule:1" 20 true ∷ [];
  is_critical = true;
}

abbrev history : Slot
history = record {
  slot_ref = "history";
  tier = 2;
  max_tokens = 40;
  items = item "turn:1" 30 false ∷ item "turn:2" 30 false ∷ item "rule:1" 20 false ∷ [];
  is_critical = false;
}

abbrev slots : List Slot
slots = history ∷ rules ∷ []

fits : (budget budgeter 80 slots).failure ≡ none
unfolding budget order_slots sort_slots insert_slot dedupe_slots unseen_items fit_slots fit_items
    fit_item member add
fits = refl

budget-Fitted_example :
    Fitted (order_slots slots) (budget budgeter 80 slots).fitted
    × ((budget budgeter 80 slots).omissions ≡ all_dropped (budget budgeter 80 slots).fitted)
budget-Fitted_example = budget-Fitted budgeter 80 slots fits

budget_bounds_example : (budget budgeter 80 slots).budget_after + 10 ≤ 80
budget_bounds_example =
    budget_bounds budgeter 80 slots ((λ e. absurd (ground (arith, e))), ((λ e. refl), tt)) fits

order_slots-Distinct_example :
    Distinct (all_refs (order_slots slots))
    × ((x : String) → member x (all_refs (order_slots slots)) ≡ member x (all_refs slots))
order_slots-Distinct_example = order_slots-Distinct slots

critical_slot_overflows_example :
    let r = budget budgeter 50 (
      single "a" 1 40 false (item "turn:1" 30 false)
      ∷ single "b" 2 10 true (item "turn:2" 30 false)
      ∷ []) in
    (r.failure ≡ none) × (r.budget_after ≡ 65)
critical_slot_overflows_example =
    critical_slot_overflows budgeter 50 1 2 40 10 "a" "b" (item "turn:1" 30 false)
      (item "turn:2" 30 false) (omega arith) (omega arith) refl (omega arith) (omega arith)
      (omega arith)
