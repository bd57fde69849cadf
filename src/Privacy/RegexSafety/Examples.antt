-- ===== src/Privacy/RegexSafety/Examples.antt =====
-- The analysis at the pattern `(a|b)+` and its parts.
use observ_me.Prelude.{
  ◌≢◌, ℕ, ◌≡◌, refl, ◌≤◌, ◌↔◌, ◌||◌, true, false, none, some, [], ◌∷◌, arith, ltb,
}
use observ_me.Privacy.RegexSafety.{
  regex_node_has_repetition, has_ambiguous_repeated_alternation, has_ambiguous_alternation_within,
  has_ambiguous_sequential_repetition, RegexNode, RegexNodes, empty, character, repetition,
  alternation, nil, cons, regex_node_can_match_empty, regex_node_first_domain,
  has_nested_regex_repetition, regex_alternation_branches_overlap, classify_unsafe_group,
}
use observ_me.Privacy.RegexSafety.Ranges.{
  Domain, merge_regex_character_ranges, regex_domains_are_provably_disjoint,
  add_ascii_case_variants,
}
use observ_me.Privacy.RegexSafety.Ranges.Merge.{
  in_ranges, AreSeparated, merge_regex_character_ranges_canonical,
}
use observ_me.Privacy.RegexSafety.Ranges.Disjoint.{regex_domains_are_provably_disjoint_iff}
use observ_me.Privacy.RegexSafety.Ranges.CaseVariants.{add_ascii_case_variants_lem, swap_case}
use observ_me.Privacy.RegexSafety.Language.{nothing, one, can_match_empty_sound}
use observ_me.Privacy.RegexSafety.First.{regex_node_first_domain_sound}
use observ_me.Privacy.RegexSafety.Accepted.{
  has_nested_regex_repetition_lem, repetition_depth, regex_alternation_branches_overlap_sound,
  classify_unsafe_group_sound, AmbiguousBranches,
}

abbrev letter_a : Domain
letter_a = record { start = 97; end = 97 } ∷ []

abbrev letter_b : Domain
letter_b = record { start = 98; end = 98 } ∷ []

abbrev a_or_b : RegexNodes
a_or_b = cons (character (some letter_a)) (cons (character (some letter_b)) nil)

abbrev many_a_or_b : RegexNode
many_a_or_b = repetition (alternation a_or_b) 1 none true

merge_regex_character_ranges_canonical_example :
    ((c : ℕ)
      → in_ranges c (
          merge_regex_character_ranges
            (record { start = 5; end = 9 } ∷ record { start = 1; end = 4 } ∷ []))
        ≡ in_ranges c (record { start = 5; end = 9 } ∷ record { start = 1; end = 4 } ∷ []))
    × AreSeparated (
        merge_regex_character_ranges
          (record { start = 5; end = 9 } ∷ record { start = 1; end = 4 } ∷ []))
merge_regex_character_ranges_canonical_example =
    merge_regex_character_ranges_canonical
      (record { start = 5; end = 9 } ∷ record { start = 1; end = 4 } ∷ [])
      (omega arith, (omega arith, tt))

regex_domains_are_provably_disjoint_iff_example :
    (regex_domains_are_provably_disjoint (some letter_a) (some letter_b) ≡ true)
    ↔ ((c : ℕ) → in_ranges c letter_a ≡ true → in_ranges c letter_b ≡ false)
regex_domains_are_provably_disjoint_iff_example =
    regex_domains_are_provably_disjoint_iff letter_a letter_b (omega arith, tt) (omega arith, tt)

add_ascii_case_variants_lem_example :
    in_ranges 65 (record { start = 65; end = 65 } ∷ record { start = 97; end = 97 } ∷ [])
    ≡ (in_ranges 65 letter_a || in_ranges (swap_case 65) letter_a)
unfolding add_ascii_case_variants merge_regex_character_ranges
add_ascii_case_variants_lem_example =
    add_ascii_case_variants_lem letter_a
      (record { start = 65; end = 65 } ∷ record { start = 97; end = 97 } ∷ []) (omega arith, tt)
      refl 65

can_match_empty_sound_example : regex_node_can_match_empty empty ≡ true
can_match_empty_sound_example = can_match_empty_sound empty nothing

regex_node_first_domain_sound_example : in_ranges 97 letter_a ≡ true
unfolding regex_node_first_domain
regex_node_first_domain_sound_example =
    regex_node_first_domain_sound (character (some letter_a)) letter_a 97 [] refl (one refl)

has_nested_regex_repetition_lem_example :
    has_nested_regex_repetition many_a_or_b ≡ ltb 1 (repetition_depth many_a_or_b)
has_nested_regex_repetition_lem_example = has_nested_regex_repetition_lem many_a_or_b

regex_alternation_branches_overlap_sound_example : ◌≡◌ {A = ℕ} 0 0
unfolding regex_alternation_branches_overlap regex_domains_are_provably_disjoint
    regex_node_first_domain
regex_alternation_branches_overlap_sound_example =
    regex_alternation_branches_overlap_sound a_or_b 0 0 (character (some letter_a))
      (character (some letter_a)) (97 ∷ []) refl refl refl (one refl) (one refl)

classify_unsafe_group_sound_example :
    (repetition_depth many_a_or_b ≤ 1)
    × ¬ ((i : ℕ) × (j : ℕ) × (i ≢ j) × AmbiguousBranches many_a_or_b i j)
unfolding classify_unsafe_group has_nested_regex_repetition regex_node_has_repetition
    has_ambiguous_repeated_alternation has_ambiguous_alternation_within
    regex_alternation_branches_overlap regex_domains_are_provably_disjoint regex_node_first_domain
    has_ambiguous_sequential_repetition
classify_unsafe_group_sound_example = classify_unsafe_group_sound many_a_or_b refl
