-- ===== src/Prelude/Text.antt =====
-- JavaScript strings: sequences of UTF-16 code units, compared unit by unit.
use Prim.Native.Nat.{ℕ}
use Prim.Native.Char.{code}
use Prim.Native.String.{String}
use mathlib.Core.Path.{◌≡◌}
use mathlib.Core.Logic.{◌↔◌}
use mathlib.Core.Bool.{Bool, true, false, ◌&&◌, ◌||◌}
use mathlib.Core.List.{List, [], ◌∷◌}
use native.Mathlib.Omega.{arith}
use observ_me.Prelude.Tests.{leb, if◌then◌else◌}
use observ_me.Prelude.Equality.{Eq, ◌==◌, nat_eq}

abbrev pub Str : Type 0
Str = List ℕ

-- The code units of a literal, which is ASCII wherever it is used.
abbrev pub lit : String → Str
lit String.[] = []
lit (String.◌∷◌ c s) = code c ∷ lit s

abbrev pub str_eq : Str → Str → Bool
str_eq [] [] = true
str_eq (c ∷ s) (d ∷ t) = c == d && str_eq s t
str_eq _ _ = false

pub str_eq_iff : (s t : Str) → (str_eq s t ≡ true) ↔ (s ≡ t)
str_eq_iff [] [] = ground arith
str_eq_iff [] (d ∷ t) = ground arith
str_eq_iff (c ∷ s) [] = ground arith
str_eq_iff (c ∷ s) (d ∷ t) = ground (arith, str_eq_iff s t)

instance abbrev pub str_equality : Eq Str
str_equality = record { same = str_eq; same_iff = str_eq_iff }

-- What String.prototype.trim takes away.
abbrev pub is_white_space : ℕ → Bool
is_white_space c =
    leb 9 c && leb c 13
    || c == 32
    || c == 160
    || c == 5760
    || leb 8192 c && leb c 8202
    || c == 8232
    || c == 8233
    || c == 8239
    || c == 8287
    || c == 12288
    || c == 65279

abbrev pub trim_start : Str → Str
trim_start [] = []
trim_start (c ∷ s) = let rest = trim_start s in if is_white_space c then rest else c ∷ s

abbrev pub snoc_trimmed : ℕ → Str → Str
snoc_trimmed c [] = if is_white_space c then [] else c ∷ []
snoc_trimmed c (d ∷ s) = c ∷ d ∷ s

abbrev pub trim_end : Str → Str
trim_end [] = []
trim_end (c ∷ s) = snoc_trimmed c (trim_end s)

abbrev pub trim : Str → Str
trim s = trim_end (trim_start s)
