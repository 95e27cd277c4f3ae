-- ===== src/Common/Decimal.antt =====
-- Python's `str` of a number that is not negative.
use Prim.Native.Nat.{ℕ, zero, suc, ◌+◌, ◌*◌, ◌/◌, ◌%◌, ◌<◌}
use Prim.Native.String as Text
use Prim.Native.String.{String}
use mathlib.Core.Path.{◌≡◌, refl}
use mathlib.Core.List.{List, [], ◌∷◌}
use native.Mathlib.Omega.{arith}
use agent_ueaf.Common.Tests.{ltb, ◌==◌, if◌then◌else◌}

-- The digits, the last one first; each round has one number less to fall back on.
digits_within : ℕ → ℕ → List ℕ
digits_within zero n = []
digits_within (suc fuel) n =
    let rest = digits_within fuel (n / 10) in if ltb n 10 then n ∷ [] else n % 10 ∷ rest

digits : ℕ → List ℕ
digits n = digits_within (suc n) n

abbrev value : List ℕ → ℕ
value [] = 0
value (d ∷ ds) = d + 10 * value ds

value-digits_within : (fuel n : ℕ) → n < fuel → value (digits_within fuel n) ≡ n
unfolding digits_within
value-digits_within zero n h = absurd (omega arith)
value-digits_within (suc fuel) n h = ground (arith, value-digits_within fuel (n / 10))

-- The fuel is enough: the digits have the value of the number.
value-digits : (n : ℕ) → value (digits n) ≡ n
unfolding digits
value-digits n = value-digits_within (suc n) n (omega arith)

digit : ℕ → String
digit d =
    if d == 0
    then "0"
    else if d == 1
    then "1"
    else if d == 2
    then "2"
    else if d == 3
    then "3"
    else if d == 4
    then "4"
    else if d == 5
    then "5"
    else if d == 6
    then "6"
    else if d == 7
    then "7"
    else if d == 8
    then "8"
    else "9"

spelled : List ℕ → String → String
unfolding digit
spelled [] after = after
spelled (d ∷ ds) after = spelled ds (Text.◌++◌ (digit d) after)

-- `str(n)`
unfoldable pub decimal : ℕ → String
unfolding digits digits_within spelled digit
decimal n = spelled (digits n) ""

decimal_runs : decimal 1207 ≡ "1207"
unfolding decimal
decimal_runs = refl
