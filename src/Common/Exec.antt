-- ===== src/Common/Exec.antt =====
-- Python methods that change an object and may raise. What was written before a raise stays
-- written, so the state comes back beside the error too.
pub mod Rules
use mathlib.Core.Bool.{Bool, true, false}
use mathlib.Core.Option.{Option, none, some}

pub data Result {ℓ} (E A : Type ℓ) : Type ℓ where
  ok : A → Result E A
  err : E → Result E A

abbrev pub Exec {ℓ} : Type ℓ → Type ℓ → Type ℓ → Type ℓ
Exec S E A = S → Result E A × S

module _ {ℓ} {E : Type ℓ} where
  -- `if not test: raise e`
  abbrev pub require_that : Bool → E → Result E (Unit {ℓ})
  require_that true e = ok tt
  require_that false e = err e

  -- An object, where its constructor's checks pass.
  abbrev pub built : {A : Type ℓ} → A → Option E → Result E A
  built a none = ok a
  built a (some e) = err e

module _ {ℓ} {S E A : Type ℓ} where
  pub pure : A → Exec S E A
  pure a s = (ok a, s)

  pub raise : E → Exec S E A
  raise e s = (err e, s)

  pub lift : Result E A → Exec S E A
  lift r s = (r, s)

  pub gets : (S → A) → Exec S E A
  gets f s = (ok (f s), s)

module _ {ℓ} {S E A B : Type ℓ} where
  abbrev pub continue : Result E A → (A → Exec S E B) → Exec S E B
  continue (ok a) f s = f a s
  continue (err e) f s = (err e, s)

  infixl 10 ◌>>=◌ ◌>>◌
  unfoldable pub ◌>>=◌ : Exec S E A → (A → Exec S E B) → Exec S E B
  unfolding pure raise lift gets
  ◌>>=◌ m f s = let (r, s') = m s in continue r f s'

  abbrev pub ◌>>◌ : Exec S E A → Exec S E B → Exec S E B
  m >> n = m >>= λ _. n
