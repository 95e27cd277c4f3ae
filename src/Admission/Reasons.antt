-- ===== src/Admission/Reasons.antt =====
-- `sorted(set(reasons))` of src/ueaf/admission/controller.py: the texts of a list in the order of their
-- characters' numbers, each once.
use Prim.Native.String.{compare}
use Prim.Native.Nat.{Ordering}
use agent_ueaf.Common.{String, List, [], ◌∷◌}

abbrev pub place_by : Ordering → String → String → List String → List String → List String
place_by Ordering.lt x y ys rest = x ∷ y ∷ ys
place_by Ordering.eq x y ys rest = y ∷ ys
place_by Ordering.gt x y ys rest = y ∷ rest

-- A text put in its place, unless it is there.
unfoldable pub place : String → List String → List String
place x [] = x ∷ []
place x (y ∷ ys) = let rest = place x ys in place_by (compare x y) x y ys rest

unfoldable pub sorted_set : List String → List String
sorted_set [] = []
sorted_set (x ∷ xs) = place x (sorted_set xs)
