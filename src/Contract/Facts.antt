-- ===== src/Contract/Facts.antt =====
-- Identifiers that are drawn, and the metadata of what is made with them
-- (src/ueaf/common/identifiers.py, src/ueaf/common/meta.py).
use Prim.Native.String.{◌++◌, len}
use text.Mathlib.TextEquality.{eq_iff}
use text.Mathlib.TextPositions.{len-append}
use agent_ueaf.Common.{ℕ, suc, String, ◌≡◌, ◌≢◌, ap, true, none, arith, truthy}
use agent_ueaf.Contract.{World, object_id, starts_upper, new_meta, validate_meta}

Nonempty_append : (s t : String) (n : ℕ) → len s ≡ suc n → s ++ t ≢ ""
Nonempty_append s t n h k = let e = ap len k in absurd (omega (arith, e, h, len-append s t))

-- A text that begins with a character counts as true.
pub truthy_append : (s t : String) (n : ℕ) → len s ≡ suc n → truthy (s ++ t) ≡ true
truthy_append s t n h = ground (arith, eq_iff (s ++ t) "", Nonempty_append s t n h)

Nonempty-object_id : (w : World) (prefix : String) (n : ℕ) → object_id w prefix n ≢ ""
Nonempty-object_id w prefix n h =
    let e = ap len h in
    absurd (omega (arith, e, len-append prefix (":" ++ w.token n), len-append ":" (w.token n)))

-- A drawn identifier is a text that counts as true.
pub truthy-object_id : (w : World) (prefix : String) (n : ℕ) → truthy (object_id w prefix n) ≡ true
truthy-object_id w prefix n =
    ground (arith, eq_iff (object_id w prefix n) "", Nonempty-object_id w prefix n)

-- Metadata with a name in capitals, a tenant and a producer passes the checks.
pub validate-new_meta :
    (name oid tenant : String) (moment : ℕ) (producer version : String)
    → starts_upper name ≡ true
    → truthy oid ≡ true
    → truthy tenant ≡ true
    → truthy producer ≡ true
    → truthy version ≡ true
    → validate_meta (new_meta name oid tenant moment producer version) ≡ none
unfolding validate_meta
validate-new_meta name oid tenant moment producer version hn ho ht hp hv = rw (hn, ho, ht, hp, hv)
