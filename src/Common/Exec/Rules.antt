-- ===== src/Common/Exec/Rules.antt =====
-- Reasoning about a sequence of actions: a case split on what the first one did, and the triples
-- `Triple P m Q` that follow from it.
use mathlib.Core.Path.{◌≡◌, refl, subst, fun_ext}
use native.Mathlib.Omega.{arith}
use mathlib.Core.Bool.{Bool, true, false}
use agent_ueaf.Common.Tests.{if◌then◌else◌}
use agent_ueaf.Common.Exec.{Result, ok, err, Exec, pure, raise, lift, ◌>>=◌}

-- From a state with `P`, the result and the state of `m` have `Q`.
pub record Triple {ℓ} {S E A : Type ℓ} (P : S → Type ℓ) (m : Exec S E A)
    (Q : Result E A → S → Type ℓ) : Type ℓ where
  pub at : (s : S) → P s → Q (m s).0 (m s).1

-- A predicate of the state that holds whatever the result.
abbrev pub Always {ℓ} : {S E A : Type ℓ} → (S → Type ℓ) → Result E A → S → Type ℓ
Always P r s = P s

module _ {ℓ} {S E A B : Type ℓ} where
  continue_cases :
      (Q : Result E B → S → Type ℓ) (f : A → Exec S E B) (r : Result E A) (s : S)
      → ((a : A) → r ≡ ok a → Q (f a s).0 (f a s).1)
      → ((e : E) → r ≡ err e → Q (err e) s)
      → Q ((lift r >>= f) s).0 ((lift r >>= f) s).1
  unfolding ◌>>=◌
  continue_cases Q f (ok a) s h k = h a refl
  continue_cases Q f (err e) s h k = k e refl

  pub bind_cases :
      (Q : Result E B → S → Type ℓ) (m : Exec S E A) (f : A → Exec S E B) (s : S)
      → ((a : A) → (m s).0 ≡ ok a → Q (f a (m s).1).0 (f a (m s).1).1)
      → ((e : E) → (m s).0 ≡ err e → Q (err e) (m s).1)
      → Q ((m >>= f) s).0 ((m >>= f) s).1
  unfolding ◌>>=◌
  bind_cases Q m f s h k = continue_cases Q f (m s).0 (m s).1 h k

  module _ {P : S → Type ℓ} where
    -- The first action keeps `P`, and the second leads from `P` to `Q`.
    pub Triple-bind :
        {Q : S → Type ℓ} (m : Exec S E A) (f : A → Exec S E B)
        → Triple P m (Always P)
        → ((s : S) → P s → Q s)
        → ((a : A) → Triple P (f a) (Always Q))
        → Triple P (m >>= f) (Always Q)
    Triple-bind {Q} m f hm weaker hf = record {
      at = λ s p.
          bind_cases (Always Q) m f s (λ a _. (hf a).at (m s).1 (hm.at s p))
            (λ e _. weaker (m s).1 (hm.at s p));
    }

    -- The first action leads from `P` to `Q`, and the second keeps `Q`.
    pub Triple-then :
        {Q : S → Type ℓ} (m : Exec S E A) (f : A → Exec S E B)
        → Triple P m (Always Q)
        → ((a : A) → Triple Q (f a) (Always Q))
        → Triple P (m >>= f) (Always Q)
    Triple-then {Q} m f hm hf = record {
      at = λ s p.
          bind_cases (Always Q) m f s (λ a _. (hf a).at (m s).1 (hm.at s p)) (λ e _. hm.at s p);
    }

    -- A check between two actions: the second may use that it passed.
    pub Triple-lift :
        {Q : S → Type ℓ} (r : Result E A) (f : A → Exec S E B)
        → ((s : S) → P s → Q s)
        → ((a : A) → r ≡ ok a → Triple P (f a) (Always Q))
        → Triple P (lift r >>= f) (Always Q)
    Triple-lift {Q} r f weaker hf = record {
      at = λ s p. continue_cases (Always Q) f r s (λ a e. (hf a e).at s p) (λ e _. weaker s p);
    }

module _ {ℓ} {S E A : Type ℓ} {P Q : S → Type ℓ} (weaker : (s : S) → P s → Q s) where
  pub Triple-pure : (a : A) → Triple {E = E} P (pure a) (Always Q)
  unfolding pure
  Triple-pure a = record { at = weaker }

  pub Triple-raise : (e : E) → Triple {A = A} P (raise e) (Always Q)
  unfolding raise
  Triple-raise e = record { at = weaker }

pub Triple-if {ℓ} :
    {S E A : Type ℓ} {P : S → Type ℓ} {Q : Result E A → S → Type ℓ} (b : Bool) (m n : Exec S E A)
    → (b ≡ true → Triple P m Q)
    → (b ≡ false → Triple P n Q)
    → Triple P (if b then m else n) Q
Triple-if true m n h k = h refl
Triple-if false m n h k = k refl

module _ {ℓ} {S E A B C : Type ℓ} where
  continue-bind :
      (f : A → Exec S E B) (g : B → Exec S E C) (r : Result E A) (s : S)
      → ((lift r >>= f) >>= g) s ≡ (lift r >>= λ a. f a >>= g) s
  unfolding ◌>>=◌
  continue-bind f g (ok a) s = refl
  continue-bind f g (err e) s = refl

  pub bind_assoc :
      (m : Exec S E A) (f : A → Exec S E B) (g : B → Exec S E C)
      → ((m >>= f) >>= g) ≡ (m >>= λ a. f a >>= g)
  unfolding ◌>>=◌
  bind_assoc m f g = fun_ext λ s. let (r, s') = m s in continue-bind f g r s'

-- What an action returns has `R`, from every state.
pub record Yields {ℓ} {S E A : Type ℓ} (m : Exec S E A) (R : A → Type ℓ) : Type ℓ where
  pub when : (s : S) (a : A) → (m s).0 ≡ ok a → R a

module _ {ℓ} {S E A B : Type ℓ} where
  pub Yields-bind :
      {Q : A → Type ℓ} {R : B → Type ℓ} (m : Exec S E A) (f : A → Exec S E B)
      → Yields m Q
      → ((a : A) → Q a → Yields (f a) R)
      → Yields (m >>= f) R
  Yields-bind {Q} {R} m f hm hf = record {
    when = λ s b h.
        bind_cases (λ r s'. r ≡ ok b → R b) m f s (λ a e k. (hf a (hm.when s a e)).when (m s).1 b k)
          (λ e e' k. absurd (ground (arith, k))) h;
  }

  -- The first action may return anything.
  pub Yields-then :
      {R : B → Type ℓ} (m : Exec S E A) (f : A → Exec S E B)
      → ((a : A) → Yields (f a) R)
      → Yields (m >>= f) R
  Yields-then m f hf = Yields-bind {Q = λ _. Unit} m f (record { when = λ s a h. tt }) (λ a _. hf a)

  pub Yields-lift :
      {R : B → Type ℓ} (r : Result E A) (f : A → Exec S E B)
      → ((a : A) → r ≡ ok a → Yields (f a) R)
      → Yields (lift r >>= f) R
  unfolding lift
  Yields-lift r f hf = Yields-bind {Q = λ a. r ≡ ok a} (lift r) f (record { when = λ s a h. h }) hf

pub Yields-weaken {ℓ} :
    {S E A : Type ℓ} {Q R : A → Type ℓ} (m : Exec S E A)
    → Yields m Q
    → ((a : A) → Q a → R a)
    → Yields m R
Yields-weaken m hm h = record { when = λ s a e. h a (hm.when s a e) }

pub Yields-pure {ℓ} :
    {S E A : Type ℓ} {R : A → Type ℓ} (a : A) → R a → Yields {S = S} {E = E} (pure a) R
unfolding pure
Yields-pure {R} a h = record {
  when = λ s b e. let same : a ≡ b = ground (arith, e) in subst R same h;
}
