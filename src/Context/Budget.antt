-- ===== src/Context/Budget.antt =====
-- The token budgeter (src/ueaf/context/token_budgeter.py). Its numbers are natural numbers, so the
-- checks that they are not negative have no counterpart, and the numbers of slots and items, which
-- the code does not check, are not negative either. The code's `available` is the limit less
-- two reserves, which may be negative: `x > available` is written here with the reserves on the
-- side of x.
pub mod Order
pub mod Items
pub mod Fit
pub mod Bounds
pub mod Lineage
use text.Mathlib.Text.{is_lt}
use Prim.Native.String as Text
use agent_ueaf.Common.{
  ℕ, ◌+◌, String, Bool, true, false, not, ◌&&◌, ◌||◌, ◌==◌, Option, none, some, List, [], ◌∷◌, ◌++◌,
  map, ltb, is_empty, if◌then◌else◌,
}
use agent_ueaf.Common.Sets.{member, add}
use agent_ueaf.Context.Compression.{
  CompressionRecord, CompressionLineage, add_record, needs_rebuild, rebuild_from,
}

pub record SlotItem : Type 0 where
  pub ref : String
  pub tokens : ℕ
  pub critical_negation : Bool

pub record Slot : Type 0 where
  pub slot_ref : String
  pub tier : ℕ
  pub max_tokens : ℕ
  pub items : List SlotItem
  pub is_critical : Bool

pub record SlotOutcome : Type 0 where
  pub slot_ref : String
  pub kept : List String
  pub dropped : List String
  pub tokens : ℕ

-- `BudgetFailure.reason`; the other fields of a failure are constants.
pub data FailureReason : Type 0 where
  critical_slots_exceed_budget critical_negation_would_be_truncated : FailureReason

-- `failure` is `None` exactly when the code's `status` is "ok".
pub record BudgetResult : Type 0 where
  pub failure : Option FailureReason
  pub fitted : List SlotOutcome
  pub omissions : List String
  pub budget_before : ℕ
  pub budget_after : ℕ
  pub compression_records : List CompressionRecord

pub record TokenBudgeter : Type 0 where
  pub critical_reserve_tokens : ℕ
  pub base_overhead_tokens : ℕ
  pub rule_version : String
  pub lineage : CompressionLineage

-- `slot.is_critical or slot.tier == 0`
abbrev pub is_untouchable : Slot → Bool
is_untouchable s = s.is_critical || s.tier == 0

-- The order of `sorted(slots, key=lambda s: (s.tier, s.slot_ref))`: b goes strictly before a.
abbrev goes_before : Slot → Slot → Bool
goes_before b a =
    ltb b.tier a.tier || (b.tier == a.tier && is_lt (Text.compare b.slot_ref a.slot_ref))

-- Among equal keys the slot that is put in goes first, so the sort is stable.
unfoldable pub insert_slot : Slot → List Slot → List Slot
insert_slot a [] = a ∷ []
insert_slot a (b ∷ bs) =
    let later = insert_slot a bs in if goes_before b a then b ∷ later else a ∷ b ∷ bs

unfoldable pub sort_slots : List Slot → List Slot
sort_slots [] = []
sort_slots (s ∷ ss) = insert_slot s (sort_slots ss)

-- The inner loop of `_order_slots`: the items whose refs were not seen, and all that are seen now.
unfoldable pub unseen_items : List SlotItem → List String → List SlotItem × List String
unseen_items [] seen = ([], seen)
unseen_items (i ∷ is) seen =
    let (rest, after) = unseen_items is (add i.ref seen) in
    (if member i.ref seen then rest else i ∷ rest, after)

-- The outer loop: a slot without items is left out.
unfoldable pub dedupe_slots : List Slot → List String → List Slot
dedupe_slots [] seen = []
dedupe_slots (s ∷ ss) seen =
    let (items, after) = unseen_items s.items seen in
    let rest = dedupe_slots ss after in
    if is_empty items then rest else record s { items = items } ∷ rest

-- `_order_slots`
unfoldable pub order_slots : List Slot → List Slot
order_slots slots = dedupe_slots (sort_slots slots) []

abbrev pub item_tokens : List SlotItem → ℕ
item_tokens [] = 0
item_tokens (i ∷ is) = i.tokens + item_tokens is

abbrev pub slot_tokens : List Slot → ℕ
slot_tokens [] = 0
slot_tokens (s ∷ ss) = item_tokens s.items + slot_tokens ss

abbrev pub critical_tokens : List Slot → ℕ
critical_tokens [] = 0
critical_tokens (s ∷ ss) =
    (if is_untouchable s then item_tokens s.items else 0) + critical_tokens ss

-- What the loop over a slot's items has kept and dropped.
pub record Fitting : Type 0 where
  pub kept : List String
  pub dropped : List String
  pub tokens : ℕ

abbrev pub empty_fitting : Fitting
empty_fitting = record { kept = []; dropped = []; tokens = 0 }

abbrev pub keep : SlotItem → Fitting → Fitting
keep i f = record f { kept = f.kept ++ i.ref ∷ []; tokens = f.tokens + i.tokens }

abbrev pub drop : SlotItem → Fitting → Fitting
drop i f = record f { dropped = f.dropped ++ i.ref ∷ [] }

abbrev pub outcome_of : Slot → Fitting → SlotOutcome
outcome_of s f = record {
  slot_ref = s.slot_ref;
  kept = f.kept;
  dropped = f.dropped;
  tokens = f.tokens;
}

abbrev pub failed : FailureReason → ℕ → ℕ → BudgetResult
failed reason before after = record {
  failure = some reason;
  fitted = [];
  omissions = [];
  budget_before = before;
  budget_after = after;
  compression_records = [];
}

module _ (b : TokenBudgeter) (max_total_tokens : ℕ) where
  -- `tokens > available`
  abbrev pub exceeds : ℕ → Bool
  exceeds tokens =
      ltb max_total_tokens (tokens + b.critical_reserve_tokens + b.base_overhead_tokens)

  -- One round of the inner loop; `none` for an item that must not be dropped.
  unfoldable pub fit_item : ℕ → Slot → SlotItem → Fitting → Option Fitting
  fit_item used s i f =
      if is_untouchable s
      then some (keep i f)
      else if exceeds (used + f.tokens + i.tokens) || ltb s.max_tokens (f.tokens + i.tokens)
      then (if i.critical_negation then none else some (drop i f))
      else some (keep i f)

  unfoldable pub fit_items : ℕ → Slot → List SlotItem → Fitting → Option Fitting
  fit_items used s [] f = some f
  fit_items used s (i ∷ is) f = elim (fit_item used s i f) [
    | none ↦ none
    | some g ↦ fit_items used s is g
  ]

  -- The outer loop, with the tokens used, the outcomes and the omissions so far.
  unfoldable pub fit_slots : ℕ → List Slot → ℕ → List SlotOutcome → List String → BudgetResult
  fit_slots before [] used outcomes omissions = record {
    failure = none;
    fitted = outcomes;
    omissions = omissions;
    budget_before = before;
    budget_after = used + b.base_overhead_tokens;
    compression_records = b.lineage.records;
  }
  fit_slots before (s ∷ ss) used outcomes omissions =
      elim (fit_items used s s.items empty_fitting) [
        | none ↦ failed critical_negation_would_be_truncated before (used + b.base_overhead_tokens)
        | some f ↦
            fit_slots before ss (used + f.tokens) (outcomes ++ outcome_of s f ∷ [])
              (omissions ++ f.dropped)
      ]

  -- `budget`
  unfoldable pub budget : List Slot → BudgetResult
  unfolding order_slots fit_slots
  budget slots =
      let ordered = order_slots slots in
      let before = b.base_overhead_tokens + slot_tokens ordered in
      if exceeds (critical_tokens ordered)
      then failed critical_slots_exceed_budget before 0
      else fit_slots before ordered 0 [] []

-- `compress`; its state is the lineage of the budgeter.
unfoldable pub compress : Slot → List String → String → ℕ → TokenBudgeter → Slot × TokenBudgeter
compress s input_refs output_ref loss b =
    let lineage =
      if needs_rebuild b.lineage then rebuild_from input_refs b.lineage else b.lineage in
    let summary : CompressionRecord = record {
      summary_ref = s.slot_ref;
      input_refs = input_refs;
      output_ref = output_ref;
      rule_version = b.rule_version;
      loss = loss;
      omitted_refs = [];
    } in
    (
      record s {
        items = record { ref = output_ref; tokens = loss + 8; critical_negation = false } ∷ [];
      },
      record b { lineage = add_record summary lineage },
    )
