-- ===== src/Privacy/RegexSafety/Ranges.antt =====
-- src/privacy/redact.ts: sets of code points as lists of ranges.
pub mod Merge
pub mod CaseVariants
pub mod Disjoint
use observ_me.Prelude.{
  ℕ, ◌+◌, ◌-◌, min, max, Bool, true, false, ◌&&◌, ◌||◌, not, Option, none, some, List, [], ◌∷◌,
  ◌++◌, ltb, leb, ◌==◌, nat_eq, if◌then◌else◌,
}

pub record Range : Type 0 where
  pub start : ℕ
  pub end : ℕ

abbrev pub Domain : Type 0
Domain = List Range

-- True where `compareRegexCharacterRanges` does not put the second range first.
unfoldable pub compare_regex_character_ranges : Range → Range → Bool
compare_regex_character_ranges left right =
    if left.start == right.start then leb left.end right.end else ltb left.start right.start

-- `sort` with that comparison: the standard library's sort is stable and leaves a sorted permutation.
unfoldable pub insert_range : Range → List Range → List Range
unfolding compare_regex_character_ranges
insert_range r [] = r ∷ []
insert_range r (s ∷ rs) =
    if compare_regex_character_ranges r s then r ∷ s ∷ rs else s ∷ insert_range r rs

unfoldable pub sort_ranges : List Range → List Range
unfolding insert_range
sort_ranges [] = []
sort_ranges (r ∷ rs) = insert_range r (sort_ranges rs)

-- The loop of `mergeRegexCharacterRanges`; `previous` is the last merged range, which the code
-- writes over in place, and so is given out when the next one starts or the loop ends.
unfoldable pub merge_from : Range → List Range → List Range
merge_from previous [] = previous ∷ []
merge_from previous (r ∷ rs) =
    let fresh = previous ∷ merge_from r rs in
    let grown = merge_from (record { start = previous.start; end = r.end }) rs in
    let kept = merge_from previous rs in
    if ltb (previous.end + 1) r.start then fresh else if ltb previous.end r.end then grown else kept

unfoldable pub merge_sorted : List Range → List Range
unfolding merge_from
merge_sorted [] = []
merge_sorted (r ∷ rs) = merge_from r rs

unfoldable pub merge_regex_character_ranges : List Range → Domain
unfolding sort_ranges merge_sorted
merge_regex_character_ranges ranges = merge_sorted (sort_ranges ranges)

abbrev pub ranges_overlap : Range → Range → Bool
ranges_overlap left right = leb left.start right.end && leb right.start left.end

unfoldable pub range_meets_any : Range → Domain → Bool
range_meets_any left [] = false
range_meets_any left (r ∷ rs) = ranges_overlap left r || range_meets_any left rs

unfoldable pub domains_meet : Domain → Domain → Bool
unfolding range_meets_any
domains_meet [] right = false
domains_meet (l ∷ ls) right = range_meets_any l right || domains_meet ls right

unfoldable pub regex_domains_are_provably_disjoint : Option Domain → Option Domain → Bool
unfolding domains_meet
regex_domains_are_provably_disjoint none right = false
regex_domains_are_provably_disjoint (some left) none = false
regex_domains_are_provably_disjoint (some left) (some right) = not (domains_meet left right)

-- The ranges that one range adds in `addAsciiCaseVariants`.
unfoldable pub case_variants_of : Range → List Range
case_variants_of r =
    (if leb (max r.start 0x41) (min r.end 0x5a)
      then record { start = max r.start 0x41 + 0x20; end = min r.end 0x5a + 0x20 } ∷ []
      else [])
    ++ (if leb (max r.start 0x61) (min r.end 0x7a)
        then record { start = max r.start 0x61 - 0x20; end = min r.end 0x7a - 0x20 } ∷ []
        else [])

-- The loop of `addAsciiCaseVariants`, over the domain with the ranges so far.
unfoldable pub add_case_variants_from : Domain → List Range → Option (List Range)
unfolding case_variants_of
add_case_variants_from [] ranges = some ranges
add_case_variants_from (r ∷ rs) ranges =
    let rest = add_case_variants_from rs (ranges ++ case_variants_of r) in
    if ltb 0x7f r.end then none else rest

abbrev pub merged : Option (List Range) → Option Domain
merged none = none
merged (some ranges) = some (merge_regex_character_ranges ranges)

unfoldable pub add_ascii_case_variants : Domain → Option Domain
unfolding add_case_variants_from
add_ascii_case_variants domain = merged (add_case_variants_from domain domain)

unfoldable pub create_regex_character_domain : ℕ → Bool → Option Domain
unfolding add_ascii_case_variants
create_regex_character_domain code_point case_insensitive =
    let domain = record { start = code_point; end = code_point } ∷ [] in
    if case_insensitive then add_ascii_case_variants domain else some domain
