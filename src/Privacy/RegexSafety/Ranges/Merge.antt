-- ===== src/Privacy/RegexSafety/Ranges/Merge.antt =====
-- What merging ranges keeps, and what the disjointness test decides.
use mathlib.Core.Path.{subst, sym, ◌∙◌}
use observ_me.Prelude.{
  ℕ, ◌+◌, ◌≤◌, ◌<◌, ◌≡◌, inl, inr, refl, Bool, true, false, ◌&&◌, ◌||◌, List, [], ◌∷◌, arith, ltb,
  leb, nat_eq, All, Bool-cases,
}
use observ_me.Privacy.RegexSafety.Ranges.{
  Range, insert_range, sort_ranges, merge_from, merge_sorted, merge_regex_character_ranges,
}

abbrev pub in_range : ℕ → Range → Bool
in_range c r = leb r.start c && leb c r.end

-- The code point is in one of the ranges.
abbrev pub in_ranges : ℕ → List Range → Bool
in_ranges c [] = false
in_ranges c (r ∷ rs) = in_range c r || in_ranges c rs

-- Ranges whose end is not before their start.
abbrev pub AreProper : List Range → Type 0
AreProper rs = All (λ r. r.start ≤ r.end) rs

in_ranges-insert :
    (c : ℕ) (r : Range) (rs : List Range)
    → in_ranges c (insert_range r rs) ≡ (in_range c r || in_ranges c rs)
unfolding insert_range
in_ranges-insert c r [] = refl
in_ranges-insert c r (s ∷ rs) = ground (arith, in_ranges-insert c r rs)

in_ranges-sort : (c : ℕ) (rs : List Range) → in_ranges c (sort_ranges rs) ≡ in_ranges c rs
unfolding sort_ranges
in_ranges-sort c [] = refl
in_ranges-sort c (r ∷ rs) =
    ground (arith, in_ranges-sort c rs, in_ranges-insert c r (sort_ranges rs))

AreProper-insert :
    (r : Range) (rs : List Range) → r.start ≤ r.end → AreProper rs → AreProper (insert_range r rs)
unfolding insert_range
AreProper-insert r [] p h = (p, tt)
AreProper-insert r (s ∷ rs) p h = ground (arith, AreProper-insert r rs p h.1)

AreProper-sort : (rs : List Range) → AreProper rs → AreProper (sort_ranges rs)
unfolding sort_ranges
AreProper-sort [] h = tt
AreProper-sort (r ∷ rs) h = AreProper-insert r (sort_ranges rs) h.0 (AreProper-sort rs h.1)

-- Starts do not decrease, from a lower bound on.
abbrev AreSortedFrom : ℕ → List Range → Type 0
AreSortedFrom a [] = Unit
AreSortedFrom a (r ∷ rs) = (a ≤ r.start) × AreSortedFrom r.start rs

AreSortedFrom-insert :
    (a : ℕ) (r : Range) (rs : List Range)
    → a ≤ r.start
    → AreSortedFrom a rs
    → AreSortedFrom a (insert_range r rs)
unfolding insert_range
AreSortedFrom-insert a r [] h s = (h, tt)
AreSortedFrom-insert a r (q ∷ rs) h s = ground (arith, AreSortedFrom-insert q.start r rs)

AreSortedFrom-sort : (rs : List Range) → AreSortedFrom 0 (sort_ranges rs)
unfolding sort_ranges
AreSortedFrom-sort [] = tt
AreSortedFrom-sort (r ∷ rs) =
    AreSortedFrom-insert 0 r (sort_ranges rs) (omega arith) (AreSortedFrom-sort rs)

AreSortedFrom-weaken : (a b : ℕ) (rs : List Range) → a ≤ b → AreSortedFrom b rs → AreSortedFrom a rs
AreSortedFrom-weaken a b [] h s = tt
AreSortedFrom-weaken a b (r ∷ rs) h s = (omega (arith, s.0), s.1)

-- Two ranges that touch or overlap, as one.
joined :
    (c : ℕ) (p r : Range) (rest : Bool)
    → p.start ≤ p.end
    → p.start ≤ r.start
    → ltb (p.end + 1) r.start ≡ false
    → ltb p.end r.end ≡ true
    → (in_range c (record { start = p.start; end = r.end }) || rest)
      ≡ (in_range c p || (in_range c r || rest))
joined c p r rest h s near longer = ground arith

covered :
    (c : ℕ) (p r : Range) (rest : Bool)
    → p.start ≤ r.start
    → ltb p.end r.end ≡ false
    → (in_range c p || rest) ≡ (in_range c p || (in_range c r || rest))
covered c p r rest s inside = ground arith

in_ranges-merge_from :
    (c : ℕ) (previous : Range) (rs : List Range)
    → previous.start ≤ previous.end
    → AreProper rs
    → AreSortedFrom previous.start rs
    → in_ranges c (merge_from previous rs) ≡ (in_range c previous || in_ranges c rs)
unfolding merge_from
in_ranges-merge_from c previous [] p h s = refl
in_ranges-merge_from c previous (r ∷ rs) p h s =
    let weaker = AreSortedFrom-weaken previous.start r.start rs s.0 s.1 in
    elim (Bool-cases (ltb (previous.end + 1) r.start)) [
      | inl apart ↦ rw (apart, in_ranges-merge_from c r rs h.0 h.1 s.1)
      | inr near ↦ elim (Bool-cases (ltb previous.end r.end)) [
        | inl longer ↦
            rw
              (
                near,
                longer,
                in_ranges-merge_from c (record { start = previous.start; end = r.end }) rs
                    (omega (arith, s.0, h.0)) h.1 weaker,
              )
              (joined c previous r (in_ranges c rs) p s.0 near longer)
        | inr inside ↦
            rw (near, inside, in_ranges-merge_from c previous rs p h.1 weaker)
              (covered c previous r (in_ranges c rs) s.0 inside)
      ]
    ]

merged_head :
    (previous : Range) (rs : List Range)
    → (q : Range) × (qs : List Range) × (merge_from previous rs ≡ q ∷ qs)
      × (q.start ≡ previous.start)
unfolding merge_from
merged_head previous [] = (previous, [], refl, refl)
merged_head previous (r ∷ rs) = elim (Bool-cases (ltb (previous.end + 1) r.start)) [
  | inl apart ↦ (previous, merge_from r rs, (rw apart), refl)
  | inr near ↦ elim (Bool-cases (ltb previous.end r.end)) [
    | inl longer ↦
        let (q, qs, e, f) = merged_head (record { start = previous.start; end = r.end }) rs in
        (q, qs, (rw (near, longer) e), f)
    | inr inside ↦ let (q, qs, e, f) = merged_head previous rs in (q, qs, (rw (near, inside) e), f)
  ]
]

-- Each merged range ends more than one before the next one starts.
abbrev pub AreSeparated : List Range → Type 0
AreSeparated [] = Unit
AreSeparated (r ∷ []) = Unit
AreSeparated (r ∷ s ∷ rs) = (r.end + 1 < s.start) × AreSeparated (s ∷ rs)

separated_cons :
    (p r : Range) (rs : List Range)
    → ltb (p.end + 1) r.start ≡ true
    → AreSeparated (merge_from r rs)
    → AreSeparated (p ∷ merge_from r rs)
separated_cons p r rs apart h =
    let (q, qs, e, f) = merged_head r rs in
    subst (λ l. AreSeparated (p ∷ l)) (sym e) (ground arith, subst AreSeparated e h)

merge_from-AreSeparated :
    (previous : Range) (rs : List Range)
    → AreSortedFrom previous.start rs
    → AreSeparated (merge_from previous rs)
unfolding merge_from
merge_from-AreSeparated previous [] s = tt
merge_from-AreSeparated previous (r ∷ rs) s =
    let weaker = AreSortedFrom-weaken previous.start r.start rs s.0 s.1 in
    elim (Bool-cases (ltb (previous.end + 1) r.start)) [
      | inl apart ↦ rw apart (separated_cons previous r rs apart (merge_from-AreSeparated r rs s.1))
      | inr near ↦ elim (Bool-cases (ltb previous.end r.end)) [
        | inl longer ↦
            rw (near, longer)
              (merge_from-AreSeparated (record { start = previous.start; end = r.end }) rs weaker)
        | inr inside ↦ rw (near, inside) (merge_from-AreSeparated previous rs weaker)
      ]
    ]

in_ranges-merge_sorted :
    (c : ℕ) (rs : List Range)
    → AreProper rs
    → AreSortedFrom 0 rs
    → in_ranges c (merge_sorted rs) ≡ in_ranges c rs
unfolding merge_sorted
in_ranges-merge_sorted c [] h s = refl
in_ranges-merge_sorted c (r ∷ rs) h s = in_ranges-merge_from c r rs h.0 h.1 s.1

merge_sorted-AreSeparated : (rs : List Range) → AreSortedFrom 0 rs → AreSeparated (merge_sorted rs)
unfolding merge_sorted
merge_sorted-AreSeparated [] s = tt
merge_sorted-AreSeparated (r ∷ rs) s = merge_from-AreSeparated r rs s.1

-- Merging ranges changes no membership, and what it returns is in order, with a gap between any two
-- ranges that follow one another. The ranges must each end where they start or later.
pub merge_regex_character_ranges_canonical :
    (rs : List Range)
    → AreProper rs
    → ((c : ℕ) → in_ranges c (merge_regex_character_ranges rs) ≡ in_ranges c rs)
      × AreSeparated (merge_regex_character_ranges rs)
unfolding merge_regex_character_ranges
merge_regex_character_ranges_canonical rs h = (
  λ c.
      in_ranges-merge_sorted c (sort_ranges rs) (AreProper-sort rs h) (AreSortedFrom-sort rs)
      ∙ in_ranges-sort c rs,
  merge_sorted-AreSeparated (sort_ranges rs) (AreSortedFrom-sort rs),
)

covers-merge_from :
    (c : ℕ) (previous : Range) (rs : List Range)
    → AreSortedFrom previous.start rs
    → (in_range c previous || in_ranges c rs) ≡ true
    → in_ranges c (merge_from previous rs) ≡ true
unfolding merge_from
covers-merge_from c previous [] s h = h
covers-merge_from c previous (r ∷ rs) s h =
    let weaker = AreSortedFrom-weaken previous.start r.start rs s.0 s.1 in
    let longer : Range = record { start = previous.start; end = r.end } in
    ground (
      arith,
      h,
      s.0,
      covers-merge_from c r rs s.1,
      covers-merge_from c longer rs weaker,
      covers-merge_from c previous rs weaker,
    )

covers-merge_sorted :
    (c : ℕ) (rs : List Range)
    → AreSortedFrom 0 rs
    → in_ranges c rs ≡ true
    → in_ranges c (merge_sorted rs) ≡ true
unfolding merge_sorted
covers-merge_sorted c [] s h = h
covers-merge_sorted c (r ∷ rs) s h = covers-merge_from c r rs s.1 h

-- Whatever the ranges are, merging loses no code point.
pub covers-merge :
    (c : ℕ) (rs : List Range)
    → in_ranges c rs ≡ true
    → in_ranges c (merge_regex_character_ranges rs) ≡ true
unfolding merge_regex_character_ranges
covers-merge c rs h =
    covers-merge_sorted c (sort_ranges rs) (AreSortedFrom-sort rs) (in_ranges-sort c rs ∙ h)
