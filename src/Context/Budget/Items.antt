-- ===== src/Context/Budget/Items.antt =====
-- The loop over the items of one slot (src/ueaf/context/token_budgeter.py).
use mathlib.Core.List.{append_assoc, append-nil}
use agent_ueaf.Common.{
  ℕ, ◌+◌, ◌≤◌, String, ◌≡◌, ◌⊎◌, refl, true, false, Option, none, some, List, [], ◌∷◌, ◌++◌, All,
  arith, eq_refl, inl, inr,
}
use agent_ueaf.Common.Sets.{member, member-snoc}
use agent_ueaf.Context.Budget.{
  SlotItem, Slot, SlotOutcome, TokenBudgeter, Fitting, empty_fitting, keep, drop, is_untouchable,
  fit_item, fit_items, outcome_of, item_tokens,
}
use agent_ueaf.Context.Budget.Order.{refs}

-- The items are kept and dropped one by one, in their order: each one's ref is the next of those kept,
-- and its tokens count, or it is the next of those dropped.
pub data Splits : List SlotItem → List String → List String → ℕ → Type 0 where
  none_left : Splits [] [] [] 0
  keeps :
      {is : List SlotItem} {kept dropped : List String} {tokens : ℕ} (i : SlotItem)
      → Splits is kept dropped tokens
      → Splits (i ∷ is) (i.ref ∷ kept) dropped (i.tokens + tokens)
  drops :
      {is : List SlotItem} {kept dropped : List String} {tokens : ℕ} (i : SlotItem)
      → Splits is kept dropped tokens
      → Splits (i ∷ is) kept (i.ref ∷ dropped) tokens

same_split :
    (is : List SlotItem) {kept dropped : List String} {tokens : ℕ} {kept' dropped' : List String}
    {tokens' : ℕ}
    → Splits is kept dropped tokens
    → kept' ≡ kept
    → dropped' ≡ dropped
    → tokens' ≡ tokens
    → Splits is kept' dropped' tokens'
same_split is split k d t = rw (k, d, t) split

-- What a slot and its outcome have to do with each other: a critical slot is kept whole; of another
-- one, the tokens kept are within its own limit; no critical negation is dropped; and every item is
-- either kept or dropped, in order, and the tokens are those of the items kept.
pub record Fits (s : Slot) (o : SlotOutcome) : Type 0 where
  pub named : o.slot_ref ≡ s.slot_ref
  pub whole :
      is_untouchable s ≡ true
      → (o.kept ≡ refs s.items) × (o.dropped ≡ []) × (o.tokens ≡ item_tokens s.items)
  pub limited : is_untouchable s ≡ false → o.tokens ≤ s.max_tokens
  pub protected : All (λ i. i.critical_negation ≡ true → member i.ref o.kept ≡ true) s.items
  pub split : Splits s.items o.kept o.dropped o.tokens

module _ (b : TokenBudgeter) (max : ℕ) (used : ℕ) (s : Slot) where
  pub fit_items-cons :
      (i : SlotItem) (is : List SlotItem) (f g : Fitting)
      → fit_items b max used s (i ∷ is) f ≡ some g
      → (e : Fitting) × (fit_item b max used s i f ≡ some e)
        × (fit_items b max used s is e ≡ some g)
  unfolding fit_items
  fit_items-cons i is f g h = go (fit_item b max used s i f) refl
    where
      go :
          (o : Option Fitting)
          → fit_item b max used s i f ≡ o
          → (e : Fitting) × (fit_item b max used s i f ≡ some e)
            × (fit_items b max used s is e ≡ some g)
      go none eq = absurd (ground arith)
      go (some e) eq = (e, eq, ground arith)

  pub fit_items_whole :
      (is : List SlotItem) (f : Fitting)
      → is_untouchable s ≡ true
      → fit_items b max used s is f
        ≡ some (record {
          kept = f.kept ++ refs is;
          dropped = f.dropped;
          tokens = f.tokens + item_tokens is;
        })
  unfolding fit_items fit_item
  fit_items_whole [] f h = ground (arith, append-nil f.kept)
  fit_items_whole (i ∷ is) f h =
      let first : fit_item b max used s i f ≡ some (keep i f) = ground arith in
      ground (arith, fit_items_whole is (keep i f) h, append_assoc f.kept (i.ref ∷ []) (refs is))

  fit_items_limited :
      (is : List SlotItem) (f g : Fitting)
      → is_untouchable s ≡ false
      → fit_items b max used s is f ≡ some g
      → f.tokens ≤ s.max_tokens
      → g.tokens ≤ s.max_tokens
  unfolding fit_item fit_items
  fit_items_limited [] f g free h le = ground arith
  fit_items_limited (i ∷ is) f g free h le =
      let (e, first, rest) = fit_items-cons i is f g h in
      fit_items_limited is e g free rest (ground arith)

  kept_stays :
      (x : String) (is : List SlotItem) (f g : Fitting)
      → fit_items b max used s is f ≡ some g
      → member x f.kept ≡ true
      → member x g.kept ≡ true
  unfolding fit_item fit_items
  kept_stays x [] f g h m = ground arith
  kept_stays x (i ∷ is) f g h m =
      let (e, first, rest) = fit_items-cons i is f g h in
      kept_stays x is e g rest (ground (arith, member-snoc x i.ref f.kept))

  fit_items_protected :
      (is : List SlotItem) (f g : Fitting)
      → fit_items b max used s is f ≡ some g
      → All (λ i. i.critical_negation ≡ true → member i.ref g.kept ≡ true) is
  unfolding fit_item
  fit_items_protected [] f g h = tt
  fit_items_protected (i ∷ is) f g h =
      let (e, first, rest) = fit_items-cons i is f g h in
      (
        λ negation.
            kept_stays i.ref is e g rest
              (ground (arith, member-snoc i.ref i.ref f.kept, eq_refl i.ref)),
        fit_items_protected is e g rest,
      )

  -- What one round adds to what was kept and dropped before.
  fit_item_cases :
      (i : SlotItem) (f e : Fitting)
      → fit_item b max used s i f ≡ some e
      → (e ≡ keep i f) ⊎ (e ≡ drop i f)
  unfolding fit_item
  fit_item_cases i f e h = ground arith

  fit_items_split :
      (is : List SlotItem) (f g : Fitting)
      → fit_items b max used s is f ≡ some g
      → (kept dropped : List String) × (tokens : ℕ) × Splits is kept dropped tokens
        × (g.kept ≡ f.kept ++ kept)
        × (g.dropped ≡ f.dropped ++ dropped)
        × (g.tokens ≡ f.tokens + tokens)
  unfolding fit_items
  fit_items_split [] f g h = (
    [],
    [],
    0,
    none_left,
    ground (arith, append-nil f.kept),
    ground (arith, append-nil f.dropped),
    ground arith,
  )
  fit_items_split (i ∷ is) f g h =
      let (e, first, rest) = fit_items-cons i is f g h in
      let (kept, dropped, tokens, split, k, d, t) = fit_items_split is e g rest in
      elim (fit_item_cases i f e first) [
        | inl kept_one ↦ (
          i.ref ∷ kept,
          dropped,
          i.tokens + tokens,
          keeps i split,
          ground (arith, append_assoc f.kept (i.ref ∷ []) kept),
          ground arith,
          ground arith,
        )
        | inr dropped_one ↦ (
          kept,
          i.ref ∷ dropped,
          tokens,
          drops i split,
          ground arith,
          ground (arith, append_assoc f.dropped (i.ref ∷ []) dropped),
          ground arith,
        )
      ]

  split_whole :
      (f : Fitting)
      → fit_items b max used s s.items empty_fitting ≡ some f
      → Splits s.items f.kept f.dropped f.tokens
  split_whole f h =
      let (kept, dropped, tokens, split, k, d, t) = fit_items_split s.items empty_fitting f h in
      same_split s.items split k d (omega (arith, t))

  pub fit_items-Fits :
      (f : Fitting)
      → fit_items b max used s s.items empty_fitting ≡ some f
      → Fits s (outcome_of s f)
  fit_items-Fits f h = record {
    named = refl;
    whole = λ w. ground (arith, fit_items_whole s.items empty_fitting w);
    limited = λ free. fit_items_limited s.items empty_fitting f free h (omega arith);
    protected = fit_items_protected s.items empty_fitting f h;
    split = split_whole f h;
  }
