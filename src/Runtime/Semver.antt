-- ===== src/Runtime/Semver.antt =====
-- The pattern of versions (`SEMVER_PATTERN` of src/ueaf/common/envelope.py) as the machine that
-- reads a text from left to right: three numbers without leading zeros, then a pre-release after
-- `-` and a build after `+`, each a list of identifiers between dots.
use Prim.Native.Char.{Char, code}
use agent_ueaf.Common.{
  ℕ, zero, suc, String, ◌≡◌, refl, Bool, true, false, ◌&&◌, ◌||◌, ◌==◌, leb, if◌then◌else◌,
}

-- Where the machine stands; a number in a position counts the dots that are still to come.
pub data Position : Type 0 where
  number_start after_zero in_digits : ℕ → Position
  pre_start in_pre build_start in_build failed : Position

abbrev is_digit : Char → Bool
is_digit c = leb b'0' (code c) && leb (code c) b'9'

-- `[0-9A-Za-z-]`
abbrev is_identifier : Char → Bool
is_identifier c =
    is_digit c
    || (leb b'A' (code c) && leb (code c) b'Z')
    || (leb b'a' (code c) && leb (code c) b'z')
    || (code c == b'-')

-- What may follow a number that has ended.
abbrev after_number : ℕ → Char → Position
after_number zero c =
    if code c == b'-' then pre_start else if code c == b'+' then build_start else failed
after_number (suc k) c = if code c == b'.' then number_start k else failed

step : Position → Char → Position
step (number_start k) c =
    if code c == b'0' then after_zero k else if is_digit c then in_digits k else failed
step (after_zero k) c = after_number k c
step (in_digits k) c = if is_digit c then in_digits k else after_number k c
step pre_start c = if is_identifier c then in_pre else failed
step in_pre c =
    if is_identifier c
    then in_pre
    else if code c == b'.'
    then pre_start
    else if code c == b'+'
    then build_start
    else failed
step build_start c = if is_identifier c then in_build else failed
step in_build c =
    if is_identifier c then in_build else if code c == b'.' then build_start else failed
step failed c = failed

is_end : Position → Bool
is_end (after_zero zero) = true
is_end (in_digits zero) = true
is_end in_pre = true
is_end in_build = true
is_end _ = false

run : Position → String → Bool
unfolding is_end
run p String.[] = is_end p
run p (String.◌∷◌ c s) = run (step p c) s

-- `SEMVER_PATTERN.fullmatch`
unfoldable pub is_semver : String → Bool
unfolding run step is_end
is_semver = run (number_start 2)

pub constant_version : is_semver "1.0.0" ≡ true
unfolding is_semver
constant_version = refl

leading_zero : is_semver "01.0.0" ≡ false
unfolding is_semver
leading_zero = refl

pre_release : is_semver "1.2.3-rc.1+b7" ≡ true
unfolding is_semver
pre_release = refl

two_numbers : is_semver "1.2" ≡ false
unfolding is_semver
two_numbers = refl
