-- ===== src/Context/Budget/Order.antt =====
-- The slots in order: sorted by tier, and every item once (src/ueaf/context/token_budgeter.py).
use agent_ueaf.Common.{
  ℕ, ◌≤◌, String, ◌≡◌, ◌∙◌, refl, ap, true, false, not, ◌&&◌, ◌||◌, List, [], ◌∷◌, ◌++◌, All, arith,
  eq_iff, Bool_cases, inl, inr, is_empty, if◌then◌else◌,
}
use agent_ueaf.Common.Sets.{member, add, Distinct, member-append, member-add}
use agent_ueaf.Context.Budget.{
  SlotItem, Slot, insert_slot, sort_slots, unseen_items, dedupe_slots, order_slots, goes_before,
}

abbrev pub refs : List SlotItem → List String
refs [] = []
refs (i ∷ is) = i.ref ∷ refs is

abbrev pub all_refs : List Slot → List String
all_refs [] = []
all_refs (s ∷ ss) = refs s.items ++ all_refs ss

member-after :
    (x : String) (is : List SlotItem) (seen : List String)
    → member x (unseen_items is seen).1 ≡ (member x (refs is) || member x seen)
unfolding unseen_items member
member-after x [] seen = refl
member-after x (i ∷ is) seen =
    ground (arith, member-after x is (add i.ref seen), member-add x i.ref seen)

member-unseen :
    (x : String) (is : List SlotItem) (seen : List String)
    → member x (refs (unseen_items is seen).0) ≡ (member x (refs is) && not (member x seen))
unfolding unseen_items member
member-unseen x [] seen = refl
member-unseen x (i ∷ is) seen =
    ground (arith, member-unseen x is (add i.ref seen), member-add x i.ref seen, eq_iff i.ref x)

unseen_items-Distinct :
    (is : List SlotItem) (seen : List String) → Distinct (refs (unseen_items is seen).0)
unfolding unseen_items member
unseen_items-Distinct [] seen = tt
unseen_items-Distinct (i ∷ is) seen = ground (
  arith,
  unseen_items-Distinct is (add i.ref seen),
  member-unseen i.ref is (add i.ref seen),
  member-add i.ref i.ref seen,
  eq_iff i.ref i.ref,
)

Distinct-append :
    (xs ys : List String)
    → Distinct xs
    → Distinct ys
    → ((x : String) → member x xs ≡ true → member x ys ≡ false)
    → Distinct (xs ++ ys)
unfolding member
Distinct-append [] ys d e apart = e
Distinct-append (x ∷ xs) ys d e apart = (
  ground (arith, member-append x xs ys, apart x, eq_iff x x),
  Distinct-append xs ys d.1 e (λ y m. apart y (ground arith)),
)

-- A slot that is left out has no refs to give.
refs_left :
    (s : Slot) (items : List SlotItem) (rest : List Slot)
    → all_refs (if is_empty items then rest else record s { items = items } ∷ rest)
      ≡ refs items ++ all_refs rest
refs_left s [] rest = refl
refs_left s (i ∷ is) rest = refl

member-dedupe_slots :
    (x : String) (ss : List Slot) (seen : List String)
    → member x (all_refs (dedupe_slots ss seen)) ≡ (member x (all_refs ss) && not (member x seen))
unfolding dedupe_slots member
member-dedupe_slots x [] seen = refl
member-dedupe_slots x (s ∷ ss) seen =
    let (items, after) = unseen_items s.items seen in
    ap (member x) (refs_left s items (dedupe_slots ss after))
    ∙ ground (
      arith,
      member-append x (refs items) (all_refs (dedupe_slots ss after)),
      member-append x (refs s.items) (all_refs ss),
      member-dedupe_slots x ss after,
      member-after x s.items seen,
      member-unseen x s.items seen,
    )

dedupe_slots-Distinct :
    (ss : List Slot) (seen : List String) → Distinct (all_refs (dedupe_slots ss seen))
unfolding dedupe_slots
dedupe_slots-Distinct [] seen = tt
dedupe_slots-Distinct (s ∷ ss) seen =
    let (items, after) = unseen_items s.items seen in
    rw (refs_left s items (dedupe_slots ss after)) (
      Distinct-append (refs items) (all_refs (dedupe_slots ss after))
        (unseen_items-Distinct s.items seen) (dedupe_slots-Distinct ss after)
        (λ x m. ground (
          arith,
          member-dedupe_slots x ss after,
          member-after x s.items seen,
          member-unseen x s.items seen,
        )))

member-insert_slot :
    (x : String) (s : Slot) (ss : List Slot)
    → member x (all_refs (insert_slot s ss)) ≡ (member x (refs s.items) || member x (all_refs ss))
unfolding insert_slot
member-insert_slot x s [] = member-append x (refs s.items) []
member-insert_slot x s (r ∷ rs) = elim (Bool_cases (goes_before r s)) [
  | inl before ↦ rw before (
      ground (
        arith,
        member-append x (refs r.items) (all_refs (insert_slot s rs)),
        member-append x (refs r.items) (all_refs rs),
        member-insert_slot x s rs,
      ))
  | inr behind ↦ rw behind (member-append x (refs s.items) (all_refs (r ∷ rs)))
]

member-sort_slots :
    (x : String) (ss : List Slot) → member x (all_refs (sort_slots ss)) ≡ member x (all_refs ss)
unfolding sort_slots
member-sort_slots x [] = refl
member-sort_slots x (s ∷ ss) = ground (
  arith,
  member-insert_slot x s (sort_slots ss),
  member-sort_slots x ss,
  member-append x (refs s.items) (all_refs ss),
)

-- Every ref of the given slots stands in the ordered slots, no other does, and it stands there once.
pub order_slots-Distinct :
    (slots : List Slot)
    → Distinct (all_refs (order_slots slots))
      × ((x : String) → member x (all_refs (order_slots slots)) ≡ member x (all_refs slots))
unfolding order_slots member
order_slots-Distinct slots = (
  dedupe_slots-Distinct (sort_slots slots) [],
  λ x. ground (arith, member-dedupe_slots x (sort_slots slots) [], member-sort_slots x slots),
)

-- The tiers ascend.
abbrev pub Ascends : List Slot → Type 0
Ascends [] = Unit
Ascends (s ∷ ss) = All (λ t. s.tier ≤ t.tier) ss × Ascends ss

pub All-insert_slot :
    (P : Slot → Type 0) (s : Slot) (ss : List Slot) → P s → All P ss → All P (insert_slot s ss)
unfolding insert_slot
All-insert_slot P s [] h k = (h, tt)
All-insert_slot P s (r ∷ rs) h k = elim (Bool_cases (goes_before r s)) [
  | inl before ↦ rw before (k.0, All-insert_slot P s rs h k.1)
  | inr behind ↦ rw behind (h, k)
]

All-le : (n m : ℕ) (ss : List Slot) → n ≤ m → All (λ t. m ≤ t.tier) ss → All (λ t. n ≤ t.tier) ss
All-le n m [] h k = tt
All-le n m (s ∷ ss) h k = (omega (arith, h, k.0), All-le n m ss h k.1)

insert_slot-Ascends : (s : Slot) (ss : List Slot) → Ascends ss → Ascends (insert_slot s ss)
unfolding insert_slot
insert_slot-Ascends s [] h = (tt, tt)
insert_slot-Ascends s (r ∷ rs) h = elim (Bool_cases (goes_before r s)) [
  | inl before ↦
      rw before (
        All-insert_slot (λ t. r.tier ≤ t.tier) s rs (ground arith) h.0,
        insert_slot-Ascends s rs h.1,
      )
  | inr behind ↦
      let le : s.tier ≤ r.tier = ground arith in rw behind ((le, All-le s.tier r.tier rs le h.0), h)
]

sort_slots-Ascends : (ss : List Slot) → Ascends (sort_slots ss)
unfolding sort_slots
sort_slots-Ascends [] = tt
sort_slots-Ascends (s ∷ ss) = insert_slot-Ascends s (sort_slots ss) (sort_slots-Ascends ss)

All-dedupe_slots :
    (n : ℕ) (ss : List Slot) (seen : List String)
    → All (λ t. n ≤ t.tier) ss
    → All (λ t. n ≤ t.tier) (dedupe_slots ss seen)
unfolding dedupe_slots
All-dedupe_slots n [] seen h = tt
All-dedupe_slots n (s ∷ ss) seen h =
    ground (arith, All-dedupe_slots n ss (unseen_items s.items seen).1 h.1)

dedupe_slots-Ascends :
    (ss : List Slot) (seen : List String) → Ascends ss → Ascends (dedupe_slots ss seen)
unfolding dedupe_slots
dedupe_slots-Ascends [] seen h = tt
dedupe_slots-Ascends (s ∷ ss) seen h =
    let after = (unseen_items s.items seen).1 in
    ground (arith, dedupe_slots-Ascends ss after h.1, All-dedupe_slots s.tier ss after h.0)

pub order_slots-Ascends : (slots : List Slot) → Ascends (order_slots slots)
unfolding order_slots
order_slots-Ascends slots = dedupe_slots-Ascends (sort_slots slots) [] (sort_slots-Ascends slots)
