-- ===== src/Pi/ChildIdentity/CodePoints.antt =====
-- The code points of a string are the scalar values that it encodes, and a display name is accepted
-- exactly by their number and the absence of control characters.
use observ_me.Prelude.{
  ℕ, nat_eq, ◌≡◌, refl, ap, Bool, true, false, not, ◌&&◌, none, List, [], ◌∷◌, ◌++◌, Str, leb, ltb,
  if◌then◌else◌, length, all, any, ◌+◌, ◌*◌, ◌-◌, ◌/◌, ◌%◌, ◌≤◌, arith, Bool-cases, inl, inr,
}
use observ_me.Prelude.JsValue.{string}
use observ_me.Pi.ChildIdentity.{
  code_points, code_points_from, is_high_surrogate, is_low_surrogate, is_unicode_scalar_value,
  is_unicode_control_character, within_bound, has_code_point_length_within_bound,
  has_only_unicode_scalar_values, contains_unicode_control_character, is_valid_child_display_name,
  display_name_max_code_points,
}

-- UTF-16
abbrev pub encode_utf16 : List ℕ → Str
encode_utf16 [] = []
encode_utf16 (c ∷ cs) =
    (if ltb c 65536
      then c ∷ []
      else (55296 + (c - 65536) / 1024) ∷ (56320 + (c - 65536) % 1024) ∷ [])
    ++ encode_utf16 cs

and_both : (a b : Bool) → (a && b) ≡ true → (a ≡ true) × (b ≡ true)
and_both true b h = (refl, h)
and_both false b h = ground arith

and_middle : (a b c : Bool) → (a && b && true && c) ≡ (a && b && c)
and_middle true true c = refl
and_middle true false c = refl
and_middle false b c = refl

scalar_small :
    (c : ℕ) → is_unicode_scalar_value c ≡ true → ltb c 65536 ≡ true → is_high_surrogate c ≡ false
unfolding is_unicode_scalar_value
scalar_small c h small = ground arith

scalar_large :
    (c : ℕ)
    → is_unicode_scalar_value c ≡ true
    → ltb c 65536 ≡ false
    → (is_high_surrogate (55296 + (c - 65536) / 1024) ≡ true)
      × (is_low_surrogate (56320 + (c - 65536) % 1024) ≡ true)
      × (is_high_surrogate (56320 + (c - 65536) % 1024) ≡ false)
unfolding is_unicode_scalar_value
scalar_large c h large = (ground arith, ground arith, ground arith)

combined :
    (c : ℕ)
    → ltb c 65536 ≡ false
    → 65536 + ((55296 + (c - 65536) / 1024) - 55296) * 1024 + ((56320 + (c - 65536) % 1024) - 56320)
      ≡ c
combined c large = let bound : 65536 ≤ c = ground arith in omega arith

code_points_from-encode :
    (cs : List ℕ)
    → all is_unicode_scalar_value cs ≡ true
    → code_points_from none (encode_utf16 cs) ≡ cs
code_points_from-encode [] h = refl
code_points_from-encode (c ∷ cs) h =
    let (scalar, rest) = and_both (is_unicode_scalar_value c) (all is_unicode_scalar_value cs) h in
    elim (Bool-cases (ltb c 65536)) [
      | inl small ↦
          rw (small, scalar_small c scalar small)
            (ap (λ xs. c ∷ xs) (code_points_from-encode cs rest))
      | inr large ↦
          (let (hi, lo, low_only) = scalar_large c scalar large in
            rw (large, hi, lo, low_only, combined c large)
              (ap (λ xs. c ∷ xs) (code_points_from-encode cs rest)))
    ]

within_bound_lem :
    (maximum count : ℕ) (cs : List ℕ)
    → count ≤ maximum
    → within_bound maximum count cs ≡ (ltb 0 (count + length cs) && leb (count + length cs) maximum)
within_bound_lem maximum count [] h = ground arith
within_bound_lem maximum count (c ∷ cs) h = elim (Bool-cases (ltb maximum (count + 1))) [
  | inl over ↦ ground arith
  | inr fits ↦
      (let next : count + 1 ≤ maximum = ground arith in
        ground (arith, within_bound_lem maximum (count + 1) cs next))
]

within_bound_from_zero :
    (maximum : ℕ) (cs : List ℕ)
    → within_bound maximum 0 cs ≡ (ltb 0 (length cs) && leb (length cs) maximum)
within_bound_from_zero maximum cs =
    let start : 0 ≤ maximum = omega arith in ground (arith, within_bound_lem maximum 0 cs start)

-- Decoding the UTF-16 encoding of any sequence of Unicode scalar values gives the sequence back.
pub code_points-encode_utf16 :
    (cs : List ℕ) → all is_unicode_scalar_value cs ≡ true → code_points (encode_utf16 cs) ≡ cs
unfolding code_points
code_points-encode_utf16 cs h = code_points_from-encode cs h

-- A name that encodes Unicode scalar values is accepted exactly when it has 1 to 128 of them and none
-- is a control character.
pub is_valid_child_display_name-encode_utf16 :
    (cs : List ℕ)
    → all is_unicode_scalar_value cs ≡ true
    → is_valid_child_display_name (string (encode_utf16 cs)) ≡ (
        ltb 0 (length cs)
        && leb (length cs) display_name_max_code_points
        && not (any is_unicode_control_character cs))
unfolding is_valid_child_display_name has_code_point_length_within_bound
    has_only_unicode_scalar_values contains_unicode_control_character
is_valid_child_display_name-encode_utf16 cs h =
    rw (code_points-encode_utf16 cs h, within_bound_from_zero display_name_max_code_points cs, h)
      (and_middle (ltb 0 (length cs)) (leb (length cs) display_name_max_code_points)
        (not (any is_unicode_control_character cs)))
