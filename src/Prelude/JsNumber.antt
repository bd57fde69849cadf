-- ===== src/Prelude/JsNumber.antt =====
-- The numbers of JavaScript, exactly: a double that is finite is a sign, a whole part and a
-- fraction counted in units of 2 ^ -1074, the smallest step of the format.
use Prim.Native.Nat.{ℕ}
use mathlib.Core.Bool.{Bool, true, false, ◌&&◌, ◌||◌, not}
use observ_me.Prelude.Tests.{ltb}
use observ_me.Prelude.Equality.{◌==◌, nat_eq}

pub data JsNumber : Type 0 where
  nan : JsNumber
  infinity : (negative : Bool) → JsNumber
  finite : (negative : Bool) (whole fraction : ℕ) → JsNumber

-- A number that a source literal, a count or a length gives.
abbrev pub whole : ℕ → JsNumber
whole n = finite false n 0

-- Number.isFinite
abbrev pub is_finite : JsNumber → Bool
is_finite (finite s w f) = true
is_finite n = false

-- Number.isInteger
abbrev pub is_integer : JsNumber → Bool
is_integer (finite s w f) = f == 0
is_integer n = false

-- n < k, for a natural number k
abbrev pub below : JsNumber → ℕ → Bool
below (finite true w f) k = ltb 0 k || not (w == 0 && f == 0)
below (finite false w f) k = ltb w k
below (infinity s) k = s
below nan k = false

-- k < n
abbrev pub above : JsNumber → ℕ → Bool
above (finite true w f) k = false
above (finite false w f) k = ltb k w || (w == k && ltb 0 f)
above (infinity s) k = not s
above nan k = false

-- n === k
abbrev pub is_number : JsNumber → ℕ → Bool
is_number (finite s w f) k = w == k && f == 0 && (not s || w == 0)
is_number n k = false
