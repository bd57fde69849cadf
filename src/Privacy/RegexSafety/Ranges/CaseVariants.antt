-- ===== src/Privacy/RegexSafety/Ranges/CaseVariants.antt =====
-- Ignoring the case of ASCII letters.
use mathlib.Core.Path.{subst}
use observ_me.Prelude.{
  ℕ, ◌+◌, ◌-◌, ◌≡◌, ◌∙◌, ap, refl, Bool, true, false, ◌&&◌, ◌||◌, none, some, List, [], ◌∷◌, ◌++◌,
  arith, leb, ltb, Bool-cases, Option-cases, inl, inr, if◌then◌else◌,
}
use observ_me.Privacy.RegexSafety.Ranges.{
  Range, Domain, case_variants_of, add_case_variants_from, add_ascii_case_variants, merged,
  merge_regex_character_ranges,
}
use observ_me.Privacy.RegexSafety.Ranges.Merge.{
  in_range, in_ranges, AreProper, merge_regex_character_ranges_canonical,
}

abbrev pub is_upper : ℕ → Bool
is_upper c = leb 65 c && leb c 90

abbrev pub is_lower : ℕ → Bool
is_lower c = leb 97 c && leb c 122

-- The same letter in the other case; any other code point is its own.
abbrev pub swap_case : ℕ → ℕ
swap_case c = if is_upper c then c + 32 else if is_lower c then c - 32 else c

in_ranges-append :
    (c : ℕ) (xs ys : List Range) → in_ranges c (xs ++ ys) ≡ (in_ranges c xs || in_ranges c ys)
in_ranges-append c [] ys = refl
in_ranges-append c (x ∷ xs) ys = ground (arith, in_ranges-append c xs ys)

AreProper-append : (xs ys : List Range) → AreProper xs → AreProper ys → AreProper (xs ++ ys)
AreProper-append [] ys h k = k
AreProper-append (x ∷ xs) ys h k = (h.0, AreProper-append xs ys h.1 k)

in_ranges-variants :
    (c : ℕ) (r : Range)
    → in_ranges c (case_variants_of r) ≡ ((is_upper c || is_lower c) && in_range (swap_case c) r)
unfolding case_variants_of
in_ranges-variants c r = ground arith

AreProper-variants : (r : Range) → AreProper (case_variants_of r)
unfolding case_variants_of
AreProper-variants r = ground arith

no_more : (a l : Bool) → a ≡ (a || (l && false))
no_more true l = refl
no_more false true = refl
no_more false false = refl

shuffle : (a l r s : Bool) → ((a || (l && r)) || (l && s)) ≡ (a || (l && (r || s)))
shuffle true l r s = refl
shuffle false true r s = refl
shuffle false false r s = refl

absorb :
    (c : ℕ) (d : List Range)
    → (in_ranges c d || ((is_upper c || is_lower c) && in_ranges (swap_case c) d))
      ≡ (in_ranges c d || in_ranges (swap_case c) d)
absorb c d = ground arith

module _ (c : ℕ) where
  in_ranges-add_from :
      (rs acc out : List Range)
      → add_case_variants_from rs acc ≡ some out
      → in_ranges c out
        ≡ (in_ranges c acc || ((is_upper c || is_lower c) && in_ranges (swap_case c) rs))
  unfolding add_case_variants_from
  in_ranges-add_from [] acc out e =
      let same : acc ≡ out = cc e in
      subst (λ o. in_ranges c o ≡ (in_ranges c acc || ((is_upper c || is_lower c) && false))) same
        (no_more (in_ranges c acc) (is_upper c || is_lower c))
  in_ranges-add_from (r ∷ rs) acc out e = elim (Bool-cases (ltb 0x7f r.end)) [
    | inl beyond ↦ let never : none ≡ some out = rw beyond at e in cc never
    | inr ascii ↦
        let ih = in_ranges-add_from rs (acc ++ case_variants_of r) out (rw ascii at e) in
        ih
        ∙ ap (λ b. b || ((is_upper c || is_lower c) && in_ranges (swap_case c) rs))
            (in_ranges-append c acc (case_variants_of r)
              ∙ ap (λ b. in_ranges c acc || b) (in_ranges-variants c r))
        ∙ shuffle (in_ranges c acc) (is_upper c || is_lower c) (in_range (swap_case c) r)
            (in_ranges (swap_case c) rs)
  ]

AreProper-add_from :
    (rs acc out : List Range)
    → AreProper acc
    → add_case_variants_from rs acc ≡ some out
    → AreProper out
unfolding add_case_variants_from
AreProper-add_from [] acc out p e = let same : acc ≡ out = cc e in subst AreProper same p
AreProper-add_from (r ∷ rs) acc out p e = elim (Bool-cases (ltb 0x7f r.end)) [
  | inl beyond ↦ let never : none ≡ some out = rw beyond at e in cc never
  | inr ascii ↦
      AreProper-add_from rs (acc ++ case_variants_of r) out
        (AreProper-append acc (case_variants_of r) p (AreProper-variants r)) (rw ascii at e)
]

-- Where the code adds the other case to a domain, the result holds exactly the code points that are
-- in the domain or whose other case is, letters of ASCII alone having one. The ranges of the domain
-- must each end where they start or later.
pub add_ascii_case_variants_lem :
    (domain result : Domain)
    → AreProper domain
    → add_ascii_case_variants domain ≡ some result
    → (c : ℕ) → in_ranges c result ≡ (in_ranges c domain || in_ranges (swap_case c) domain)
unfolding add_ascii_case_variants
add_ascii_case_variants_lem domain result p e c =
    elim (Option-cases (add_case_variants_from domain domain)) [
      | inl unknown ↦ let never : none ≡ some result = rw (unknown, merged) at e in cc never
      | inr (ranges, found) ↦
          let same : merge_regex_character_ranges ranges ≡ result = cc (ap merged found, e) in
          let proper = AreProper-add_from domain domain ranges p found in
          subst (λ d. in_ranges c d ≡ (in_ranges c domain || in_ranges (swap_case c) domain)) same
            ((merge_regex_character_ranges_canonical ranges proper).0 c
              ∙ in_ranges-add_from c domain domain ranges found
              ∙ absorb c domain)
    ]
