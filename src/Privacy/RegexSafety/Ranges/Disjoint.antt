-- ===== src/Privacy/RegexSafety/Ranges/Disjoint.antt =====
-- The disjointness test decides whether two domains share a code point.
use observ_me.Prelude.{
  ℕ, ◌≤◌, ◌≡◌, ◌↔◌, refl, max, true, false, some, [], ◌∷◌, arith, Bool-cases, inl, inr,
}
use observ_me.Privacy.RegexSafety.Ranges.{
  Range, Domain, ranges_overlap, range_meets_any, domains_meet, regex_domains_are_provably_disjoint,
}
use observ_me.Privacy.RegexSafety.Ranges.Merge.{in_range, in_ranges, AreProper}

-- A code point of both.
abbrev Shared : Domain → Domain → Type 0
Shared a b = (c : ℕ) × (in_ranges c a ≡ true) × (in_ranges c b ≡ true)

range_meets_any_point :
    (l : Range) (b : Domain)
    → l.start ≤ l.end
    → AreProper b
    → range_meets_any l b ≡ true
    → (c : ℕ) × (in_range c l ≡ true) × (in_ranges c b ≡ true)
unfolding range_meets_any
range_meets_any_point l [] p h m = cc
range_meets_any_point l (r ∷ rs) p h m = elim (Bool-cases (ranges_overlap l r)) [
  | inl here ↦ (max l.start r.start, ground (arith, h.0), ground (arith, h.0))
  | inr later ↦
      let (c, x, y) = range_meets_any_point l rs p h.1 (rw later at m) in (c, x, ground (arith, y))
]

domains_meet_point :
    (a b : Domain) → AreProper a → AreProper b → domains_meet a b ≡ true → Shared a b
unfolding domains_meet
domains_meet_point [] b p h m = cc
domains_meet_point (l ∷ ls) b p h m = elim (Bool-cases (range_meets_any l b)) [
  | inl here ↦ let (c, x, y) = range_meets_any_point l b p.0 h here in (c, ground (arith, x), y)
  | inr later ↦
      let (c, x, y) = domains_meet_point ls b p.1 h (rw later at m) in (c, ground (arith, x), y)
]

in_ranges-of_no_meeting :
    (c : ℕ) (l : Range) (b : Domain)
    → range_meets_any l b ≡ false
    → in_range c l ≡ true
    → in_ranges c b ≡ false
unfolding range_meets_any
in_ranges-of_no_meeting c l [] m h = refl
in_ranges-of_no_meeting c l (r ∷ rs) m h = ground (arith, in_ranges-of_no_meeting c l rs)

pub in_both-of_no_meeting :
    (c : ℕ) (a b : Domain) → domains_meet a b ≡ false → in_ranges c a ≡ true → in_ranges c b ≡ false
unfolding domains_meet
in_both-of_no_meeting c [] b m h = cc
in_both-of_no_meeting c (l ∷ ls) b m h =
    ground (arith, in_both-of_no_meeting c ls b, in_ranges-of_no_meeting c l b)

-- Of two known domains the test says that they are disjoint exactly when no code point is in both.
-- Their ranges must each end where they start or later.
pub regex_domains_are_provably_disjoint_iff :
    (a b : Domain)
    → AreProper a
    → AreProper b
    → (regex_domains_are_provably_disjoint (some a) (some b) ≡ true)
      ↔ ((c : ℕ) → in_ranges c a ≡ true → in_ranges c b ≡ false)
unfolding regex_domains_are_provably_disjoint
regex_domains_are_provably_disjoint_iff a b p h = (
  λ d c x. in_both-of_no_meeting c a b (ground arith) x,
  λ apart. elim (Bool-cases (domains_meet a b)) [
    | inl meet ↦ let (c, x, y) = domains_meet_point a b p h meet in let n = apart c x in cc
    | inr no_meet ↦ rw no_meet
  ],
)
