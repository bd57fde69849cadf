-- ===== src/Privacy/RegexSafety.antt =====
-- src/privacy/redact.ts: the analysis that refuses custom redaction patterns which a backtracking
-- engine could take exponential time over. It is conservative: a domain that it cannot compute
-- (`none` here) overlaps with everything.
mod Examples
pub mod Ranges
pub mod Language
pub mod First
pub mod Accepted
use observ_me.Prelude.{
  ℕ, ◌==◌, nat_eq, Bool, true, false, ◌&&◌, ◌||◌, not, Option, none, some, List, [], ◌∷◌, ◌++◌,
  if◌then◌else◌,
}
use Ranges.{Range, Domain, merge_regex_character_ranges, regex_domains_are_provably_disjoint}

-- `RegexSafetyNode`; `maximum` is none where the code has positive infinity.
mutual
  pub data RegexNode : Type 0 where
    empty : RegexNode
    character : (domain : Option Domain) → RegexNode
    repetition :
        (child : RegexNode) (minimum : ℕ) (maximum : Option ℕ) (is_variable : Bool) → RegexNode
    alternation : (branches : RegexNodes) → RegexNode
    sequence : (children : RegexNodes) → RegexNode

  pub data RegexNodes : Type 0 where
    nil : RegexNodes
    cons : RegexNode → RegexNodes → RegexNodes

unfoldable mutual
  pub regex_node_can_match_empty : RegexNode → Bool
  regex_node_can_match_empty empty = true
  regex_node_can_match_empty (character domain) = false
  regex_node_can_match_empty (repetition child minimum maximum is_variable) =
      minimum == 0 || regex_node_can_match_empty child
  regex_node_can_match_empty (alternation branches) = some_can_match_empty branches
  regex_node_can_match_empty (sequence children) = all_can_match_empty children

  pub some_can_match_empty : RegexNodes → Bool
  some_can_match_empty nil = false
  some_can_match_empty (cons n ns) = regex_node_can_match_empty n || some_can_match_empty ns

  pub all_can_match_empty : RegexNodes → Bool
  all_can_match_empty nil = true
  all_can_match_empty (cons n ns) = regex_node_can_match_empty n && all_can_match_empty ns

abbrev pub map_option {ℓ κ} : {A : Type ℓ} {B : Type κ} → (A → B) → Option A → Option B
map_option f none = none
map_option f (some a) = some (f a)

-- One round of `unionRegexNodeDomains`: what to do with the ranges so far and the node's domain.
abbrev pub union_step :
    Option Domain → Bool → List Range → (List Range → Option (List Range)) → Option (List Range)
union_step none stop ranges rest = none
union_step (some d) true ranges rest = some (ranges ++ d)
union_step (some d) false ranges rest = rest (ranges ++ d)

unfoldable mutual
  pub regex_node_first_domain : RegexNode → Option Domain
  regex_node_first_domain empty = some []
  regex_node_first_domain (character domain) = domain
  regex_node_first_domain (repetition child minimum maximum is_variable) =
      regex_node_first_domain child
  regex_node_first_domain (alternation branches) =
      map_option merge_regex_character_ranges (union_regex_node_domains branches false [])
  regex_node_first_domain (sequence children) =
      map_option merge_regex_character_ranges (union_regex_node_domains children true [])

  pub union_regex_node_domains : RegexNodes → Bool → List Range → Option (List Range)
  union_regex_node_domains nil stop_after_required ranges = some ranges
  union_regex_node_domains (cons n ns) stop_after_required ranges =
      union_step (regex_node_first_domain n)
        (stop_after_required && not (regex_node_can_match_empty n)) ranges
        (union_regex_node_domains ns stop_after_required)

unfoldable mutual
  pub regex_node_has_repetition : RegexNode → Bool
  regex_node_has_repetition empty = false
  regex_node_has_repetition (character domain) = false
  regex_node_has_repetition (repetition child minimum maximum is_variable) = true
  regex_node_has_repetition (alternation branches) = some_has_repetition branches
  regex_node_has_repetition (sequence children) = some_has_repetition children

  pub some_has_repetition : RegexNodes → Bool
  some_has_repetition nil = false
  some_has_repetition (cons n ns) = regex_node_has_repetition n || some_has_repetition ns

unfoldable mutual
  pub has_nested_regex_repetition : RegexNode → Bool
  has_nested_regex_repetition empty = false
  has_nested_regex_repetition (character domain) = false
  has_nested_regex_repetition (repetition child minimum maximum is_variable) =
      regex_node_has_repetition child || has_nested_regex_repetition child
  has_nested_regex_repetition (alternation branches) = some_has_nested branches
  has_nested_regex_repetition (sequence children) = some_has_nested children

  pub some_has_nested : RegexNodes → Bool
  some_has_nested nil = false
  some_has_nested (cons n ns) = has_nested_regex_repetition n || some_has_nested ns

-- The inner loop of `regexAlternationBranchesOverlap`.
unfoldable pub overlaps_any : Option Domain → RegexNodes → Bool
overlaps_any left nil = false
overlaps_any left (cons n ns) =
    not (regex_domains_are_provably_disjoint left (regex_node_first_domain n))
    || overlaps_any left ns

unfoldable pub some_branches_overlap : RegexNodes → Bool
unfolding overlaps_any
some_branches_overlap nil = false
some_branches_overlap (cons n ns) =
    overlaps_any (regex_node_first_domain n) ns || some_branches_overlap ns

unfoldable pub regex_alternation_branches_overlap : RegexNodes → Bool
unfolding some_branches_overlap some_can_match_empty
regex_alternation_branches_overlap branches =
    some_can_match_empty branches || some_branches_overlap branches

unfoldable mutual
  pub has_ambiguous_alternation_within : RegexNode → Bool
  has_ambiguous_alternation_within empty = false
  has_ambiguous_alternation_within (character domain) = false
  has_ambiguous_alternation_within (repetition child minimum maximum is_variable) =
      has_ambiguous_alternation_within child
  has_ambiguous_alternation_within (alternation branches) =
      regex_alternation_branches_overlap branches || some_ambiguous_within branches
  has_ambiguous_alternation_within (sequence children) = some_ambiguous_within children

  pub some_ambiguous_within : RegexNodes → Bool
  some_ambiguous_within nil = false
  some_ambiguous_within (cons n ns) = has_ambiguous_alternation_within n || some_ambiguous_within ns

unfoldable mutual
  pub has_ambiguous_repeated_alternation : RegexNode → Bool
  has_ambiguous_repeated_alternation empty = false
  has_ambiguous_repeated_alternation (character domain) = false
  has_ambiguous_repeated_alternation (repetition child minimum maximum is_variable) =
      has_ambiguous_alternation_within child || has_ambiguous_repeated_alternation child
  has_ambiguous_repeated_alternation (alternation branches) = some_ambiguous_repeated branches
  has_ambiguous_repeated_alternation (sequence children) = some_ambiguous_repeated children

  pub some_ambiguous_repeated : RegexNodes → Bool
  some_ambiguous_repeated nil = false
  some_ambiguous_repeated (cons n ns) =
      has_ambiguous_repeated_alternation n || some_ambiguous_repeated ns

-- The children of the variable repetitions that the code collects, in order. The code keeps the
-- repetitions and reads only their children.
unfoldable mutual
  pub collect_variable_regex_repetitions : RegexNode → List RegexNode
  collect_variable_regex_repetitions empty = []
  collect_variable_regex_repetitions (character domain) = []
  collect_variable_regex_repetitions (repetition child minimum maximum is_variable) =
      if is_variable then child ∷ [] else []
  collect_variable_regex_repetitions (alternation branches) = collect_all branches
  collect_variable_regex_repetitions (sequence children) = collect_all children

  pub collect_all : RegexNodes → List RegexNode
  collect_all nil = []
  collect_all (cons n ns) = collect_variable_regex_repetitions n ++ collect_all ns

unfoldable pub repetition_overlaps_any : Option Domain → List RegexNode → Bool
repetition_overlaps_any left [] = false
repetition_overlaps_any left (n ∷ ns) =
    not (regex_domains_are_provably_disjoint left (regex_node_first_domain n))
    || repetition_overlaps_any left ns

unfoldable pub regex_repetition_collections_overlap : List RegexNode → List RegexNode → Bool
unfolding repetition_overlaps_any
regex_repetition_collections_overlap [] right = false
regex_repetition_collections_overlap (n ∷ left) right =
    repetition_overlaps_any (regex_node_first_domain n) right
    || regex_repetition_collections_overlap left right

-- `some_ambiguous_sequential` is the loop over branches, `sequence_is_ambiguous` the loop of
-- `regexSequenceHasAmbiguousRepetition` with the repetitions seen so far.
unfoldable mutual
  pub has_ambiguous_sequential_repetition : RegexNode → Bool
  has_ambiguous_sequential_repetition empty = false
  has_ambiguous_sequential_repetition (character domain) = false
  has_ambiguous_sequential_repetition (repetition child minimum maximum is_variable) =
      has_ambiguous_sequential_repetition child
  has_ambiguous_sequential_repetition (alternation branches) = some_ambiguous_sequential branches
  has_ambiguous_sequential_repetition (sequence children) = sequence_is_ambiguous children []

  pub some_ambiguous_sequential : RegexNodes → Bool
  some_ambiguous_sequential nil = false
  some_ambiguous_sequential (cons n ns) =
      has_ambiguous_sequential_repetition n || some_ambiguous_sequential ns

  pub sequence_is_ambiguous : RegexNodes → List RegexNode → Bool
  sequence_is_ambiguous nil previous = false
  sequence_is_ambiguous (cons n ns) previous =
      has_ambiguous_sequential_repetition n
      || regex_repetition_collections_overlap previous (collect_variable_regex_repetitions n)
      || sequence_is_ambiguous ns (previous ++ collect_variable_regex_repetitions n)

pub data UnsafeQuantifiedGroupKind : Type 0 where
  nested_quantifier ambiguous_alternation ambiguous_repetition : UnsafeQuantifiedGroupKind

-- `detectUnsafeQuantifiedGroup` past the parser, which gives `none` for what it cannot read.
unfoldable pub classify_unsafe_group : Option RegexNode → Option UnsafeQuantifiedGroupKind
classify_unsafe_group none = none
classify_unsafe_group (some tree) =
    if has_nested_regex_repetition tree
    then some nested_quantifier
    else if has_ambiguous_repeated_alternation tree
    then some ambiguous_alternation
    else if has_ambiguous_sequential_repetition tree
    then some ambiguous_repetition
    else none
