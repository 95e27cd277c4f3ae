-- ===== src/Common/Sets.antt =====
-- Python's sets of texts, as lists of their elements, and lists without repetition.
use mathlib.Core.Path.{◌≡◌, refl}
use mathlib.Core.Bool.{Bool, false, ◌||◌}
use mathlib.Core.List.{List, [], ◌∷◌, ◌++◌}
use Prim.Native.String.{String}
use native.Mathlib.Omega.{arith}
use text.Mathlib.Text.{◌==◌ as str_eq}
use text.Mathlib.TextEquality.{eq_iff}
use agent_ueaf.Common.Tests.{if◌then◌else◌}

-- `x in s`
unfoldable pub member : String → List String → Bool
member x [] = false
member x (y ∷ ys) = str_eq y x || member x ys

-- `s.add(x)`
unfoldable pub add : String → List String → List String
add x s = if member x s then s else x ∷ s

abbrev pub Distinct : List String → Type 0
Distinct [] = Unit
Distinct (x ∷ xs) = (member x xs ≡ false) × Distinct xs

pub member-append :
    (x : String) (xs ys : List String) → member x (xs ++ ys) ≡ (member x xs || member x ys)
unfolding member
member-append x [] ys = refl
member-append x (y ∷ xs) ys = ground (arith, member-append x xs ys)

pub member-add : (x y : String) (s : List String) → member x (add y s) ≡ (str_eq y x || member x s)
unfolding member add
member-add x y s = ground (arith, eq_iff y x)

pub member-snoc :
    (x y : String) (s : List String) → member x (s ++ y ∷ []) ≡ (str_eq y x || member x s)
unfolding member
member-snoc x y s = ground (arith, member-append x s (y ∷ []))

pub Distinct-snoc :
    (xs : List String) (x : String) → Distinct xs → member x xs ≡ false → Distinct (xs ++ x ∷ [])
unfolding member
Distinct-snoc [] x d h = (refl, tt)
Distinct-snoc (y ∷ xs) x d h = (
  ground (arith, member-snoc y x xs, eq_iff y x, eq_iff x y),
  Distinct-snoc xs x d.1 (ground arith),
)
