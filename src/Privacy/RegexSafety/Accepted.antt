-- ===== src/Privacy/RegexSafety/Accepted.antt =====
-- What is known of a pattern that the analysis accepts.
use mathlib.Core.Path.{subst}
use observ_me.Prelude.{
  ℕ, zero, suc, sym, ap, max, ◌≤◌, ◌≡◌, refl, Bool, true, false, ◌||◌, Option, none, some, [], ◌∷◌,
  arith, ltb, ◌≢◌,
}
use observ_me.Privacy.RegexSafety.Ranges.{Domain, domains_meet, regex_domains_are_provably_disjoint}
use observ_me.Privacy.RegexSafety.Ranges.Merge.{in_ranges}
use observ_me.Privacy.RegexSafety.Ranges.Disjoint.{in_both-of_no_meeting}
use observ_me.Privacy.RegexSafety.Language.{Word, Matches, can_match_empty_sound}
use observ_me.Privacy.RegexSafety.First.{regex_node_first_domain_sound}
use observ_me.Privacy.RegexSafety.{
  RegexNode, empty, character, repetition, alternation, sequence, RegexNodes, nil, cons,
  regex_node_can_match_empty, some_can_match_empty, regex_node_first_domain, overlaps_any,
  some_branches_overlap, regex_alternation_branches_overlap, regex_node_has_repetition,
  some_has_repetition, has_nested_regex_repetition, some_has_nested,
  has_ambiguous_alternation_within, some_ambiguous_within, has_ambiguous_repeated_alternation,
  some_ambiguous_repeated, classify_unsafe_group,
}

-- How deep repetitions stand in one another.
unfoldable mutual
  pub repetition_depth : RegexNode → ℕ
  repetition_depth empty = 0
  repetition_depth (character d) = 0
  repetition_depth (repetition child lo hi v) = suc (repetition_depth child)
  repetition_depth (alternation ns) = deepest ns
  repetition_depth (sequence ns) = deepest ns

  pub deepest : RegexNodes → ℕ
  deepest nil = 0
  deepest (cons n ns) = max (repetition_depth n) (deepest ns)

mutual
  unfolding repetition_depth deepest regex_node_has_repetition some_has_repetition

  has_repetition-depth : (n : RegexNode) → regex_node_has_repetition n ≡ ltb 0 (repetition_depth n)
  has_repetition-depth empty = refl
  has_repetition-depth (character d) = refl
  has_repetition-depth (repetition child lo hi v) = ground arith
  has_repetition-depth (alternation ns) = some_has_repetition-depth ns
  has_repetition-depth (sequence ns) = some_has_repetition-depth ns

  some_has_repetition-depth : (ns : RegexNodes) → some_has_repetition ns ≡ ltb 0 (deepest ns)
  some_has_repetition-depth nil = refl
  some_has_repetition-depth (cons n ns) =
      ground (arith, has_repetition-depth n, some_has_repetition-depth ns)

mutual
  unfolding repetition_depth deepest has_nested_regex_repetition some_has_nested

  has_nested-depth : (n : RegexNode) → has_nested_regex_repetition n ≡ ltb 1 (repetition_depth n)
  has_nested-depth empty = refl
  has_nested-depth (character d) = refl
  has_nested-depth (repetition child lo hi v) =
      ground (arith, has_repetition-depth child, has_nested-depth child)
  has_nested-depth (alternation ns) = some_has_nested-depth ns
  has_nested-depth (sequence ns) = some_has_nested-depth ns

  some_has_nested-depth : (ns : RegexNodes) → some_has_nested ns ≡ ltb 1 (deepest ns)
  some_has_nested-depth nil = refl
  some_has_nested-depth (cons n ns) = ground (arith, has_nested-depth n, some_has_nested-depth ns)

-- A pattern has a nested repetition exactly when some repetition stands inside another, at any depth.
pub has_nested_regex_repetition_lem :
    (n : RegexNode) → has_nested_regex_repetition n ≡ ltb 1 (repetition_depth n)
has_nested_regex_repetition_lem n = has_nested-depth n

-- The branch at a position.
abbrev pub branch_at : ℕ → RegexNodes → Option RegexNode
branch_at i nil = none
branch_at zero (cons n ns) = some n
branch_at (suc i) (cons n ns) = branch_at i ns

or-false : (a b : Bool) → (a || b) ≡ false → (a ≡ false) × (b ≡ false)
or-false a b h = ground arith

can_match_empty-branch :
    (ns : RegexNodes) (i : ℕ) (a : RegexNode)
    → some_can_match_empty ns ≡ false
    → branch_at i ns ≡ some a
    → regex_node_can_match_empty a ≡ false
unfolding some_can_match_empty
can_match_empty-branch nil i a h e = cc
can_match_empty-branch (cons n ns) zero a h e =
    let same : n ≡ a = cc e in
    subst (λ x. regex_node_can_match_empty x ≡ false) same
      (or-false (regex_node_can_match_empty n) (some_can_match_empty ns) h).0
can_match_empty-branch (cons n ns) (suc i) a h e =
    can_match_empty-branch ns i a
      (or-false (regex_node_can_match_empty n) (some_can_match_empty ns) h).1 e

disjoint_known :
    (k l : Option Domain) (c : ℕ)
    → regex_domains_are_provably_disjoint k l ≡ true
    → ((d : Domain) → k ≡ some d → in_ranges c d ≡ true)
    → ((d : Domain) → l ≡ some d → in_ranges c d ≡ true)
    → ⊥
unfolding regex_domains_are_provably_disjoint
disjoint_known none l c h x y = cc
disjoint_known (some d) none c h x y = cc
disjoint_known (some d) (some e) c h x y =
    let apart : domains_meet d e ≡ false = ground arith in
    let out = in_both-of_no_meeting c d e apart (x d refl) in cc (out, y e refl)

disjoint_firsts :
    (a b : RegexNode) (c : ℕ) (t : Word)
    → regex_domains_are_provably_disjoint (regex_node_first_domain a) (regex_node_first_domain b)
      ≡ true
    → Matches a (c ∷ t)
    → ¬ Matches b (c ∷ t)
disjoint_firsts a b c t h m k =
    disjoint_known (regex_node_first_domain a) (regex_node_first_domain b) c h
      (λ d f. regex_node_first_domain_sound a d c t f m)
      (λ d f. regex_node_first_domain_sound b d c t f k)

overlaps_any-at :
    (left : Option Domain) (ns : RegexNodes) (j : ℕ) (b : RegexNode)
    → overlaps_any left ns ≡ false
    → branch_at j ns ≡ some b
    → regex_domains_are_provably_disjoint left (regex_node_first_domain b) ≡ true
unfolding overlaps_any
overlaps_any-at left nil j b h e = cc
overlaps_any-at left (cons n ns) zero b h e =
    let same : n ≡ b = cc e in
    subst (λ x. regex_domains_are_provably_disjoint left (regex_node_first_domain x) ≡ true) same
      (ground arith)
overlaps_any-at left (cons n ns) (suc j) b h e = ground (arith, overlaps_any-at left ns j b)

one_branch :
    (ns : RegexNodes) (i j : ℕ) (a b : RegexNode) (c : ℕ) (t : Word)
    → some_branches_overlap ns ≡ false
    → branch_at i ns ≡ some a
    → branch_at j ns ≡ some b
    → Matches a (c ∷ t)
    → Matches b (c ∷ t)
    → i ≡ j
unfolding some_branches_overlap
one_branch nil i j a b c t h e f m k = cc
one_branch (cons n ns) zero zero a b c t h e f m k = refl
one_branch (cons n ns) zero (suc j) a b c t h e f m k =
    let parts =
      or-false (overlaps_any (regex_node_first_domain n) ns) (some_branches_overlap ns) h in
    let same : n ≡ a = cc e in
    let apart = overlaps_any-at (regex_node_first_domain n) ns j b parts.0 f in
    absurd (disjoint_firsts n b c t apart (subst (λ x. Matches x (c ∷ t)) (sym same) m) k)
one_branch (cons n ns) (suc i) zero a b c t h e f m k =
    let parts =
      or-false (overlaps_any (regex_node_first_domain n) ns) (some_branches_overlap ns) h in
    let same : n ≡ b = cc f in
    let apart = overlaps_any-at (regex_node_first_domain n) ns i a parts.0 e in
    absurd (disjoint_firsts n a c t apart (subst (λ x. Matches x (c ∷ t)) (sym same) k) m)
one_branch (cons n ns) (suc i) (suc j) a b c t h e f m k =
    ap suc (one_branch ns i j a b c t (ground arith) e f m k)

-- If the branches of an alternation do not overlap by the code's test, no word is matched by two of
-- them.
pub regex_alternation_branches_overlap_sound :
    (ns : RegexNodes) (i j : ℕ) (a b : RegexNode) (w : Word)
    → regex_alternation_branches_overlap ns ≡ false
    → branch_at i ns ≡ some a
    → branch_at j ns ≡ some b
    → Matches a w
    → Matches b w
    → i ≡ j
unfolding regex_alternation_branches_overlap
regex_alternation_branches_overlap_sound ns i j a b [] h e f m k =
    let parts = or-false (some_can_match_empty ns) (some_branches_overlap ns) h in
    cc (can_match_empty-branch ns i a parts.0 e, can_match_empty_sound a m)
regex_alternation_branches_overlap_sound ns i j a b (c ∷ t) h e f m k =
    let parts = or-false (some_can_match_empty ns) (some_branches_overlap ns) h in
    one_branch ns i j a b c t parts.1 e f m k

-- Where a node stands in a pattern.
mutual
  pub data Occurs (m : RegexNode) : RegexNode → Type 0 where
    here : Occurs m m
    repeated :
        {child : RegexNode} (lo : ℕ) (hi : Option ℕ) (v : Bool)
        → Occurs m child
        → Occurs m (repetition child lo hi v)
    in_branch : {ns : RegexNodes} → OccursIn m ns → Occurs m (alternation ns)
    in_sequence : {ns : RegexNodes} → OccursIn m ns → Occurs m (sequence ns)

  pub data OccursIn (m : RegexNode) : RegexNodes → Type 0 where
    at_head : {n : RegexNode} {ns : RegexNodes} → Occurs m n → OccursIn m (cons n ns)
    at_tail : {n : RegexNode} {ns : RegexNodes} → OccursIn m ns → OccursIn m (cons n ns)

module _ (bs : RegexNodes) where
  mutual
    unfolding has_ambiguous_alternation_within some_ambiguous_within

    Occurs-within :
        {n : RegexNode}
        → Occurs (alternation bs) n
        → has_ambiguous_alternation_within n ≡ false
        → regex_alternation_branches_overlap bs ≡ false
    Occurs-within here h =
        (or-false (regex_alternation_branches_overlap bs) (some_ambiguous_within bs) h).0
    Occurs-within (repeated lo hi v o) h = Occurs-within o h
    Occurs-within (in_branch {ns = ns} o) h =
        OccursIn-within o
          (or-false (regex_alternation_branches_overlap ns) (some_ambiguous_within ns) h).1
    Occurs-within (in_sequence o) h = OccursIn-within o h

    OccursIn-within :
        {ns : RegexNodes}
        → OccursIn (alternation bs) ns
        → some_ambiguous_within ns ≡ false
        → regex_alternation_branches_overlap bs ≡ false
    OccursIn-within (at_head {n = n} {ns = ns} o) h =
        Occurs-within o
          (or-false (has_ambiguous_alternation_within n) (some_ambiguous_within ns) h).0
    OccursIn-within (at_tail {n = n} {ns = ns} o) h =
        OccursIn-within o
          (or-false (has_ambiguous_alternation_within n) (some_ambiguous_within ns) h).1

module _ (child : RegexNode) (lo : ℕ) (hi : Option ℕ) (v : Bool) where
  mutual
    unfolding has_ambiguous_repeated_alternation some_ambiguous_repeated

    Occurs-repeated :
        {n : RegexNode}
        → Occurs (repetition child lo hi v) n
        → has_ambiguous_repeated_alternation n ≡ false
        → has_ambiguous_alternation_within child ≡ false
    Occurs-repeated here h =
        (or-false (has_ambiguous_alternation_within child)
          (has_ambiguous_repeated_alternation child) h).0
    Occurs-repeated (repeated {child = c} lo' hi' v' o) h =
        Occurs-repeated o
          (or-false (has_ambiguous_alternation_within c) (has_ambiguous_repeated_alternation c) h).1
    Occurs-repeated (in_branch o) h = OccursIn-repeated o h
    Occurs-repeated (in_sequence o) h = OccursIn-repeated o h

    OccursIn-repeated :
        {ns : RegexNodes}
        → OccursIn (repetition child lo hi v) ns
        → some_ambiguous_repeated ns ≡ false
        → has_ambiguous_alternation_within child ≡ false
    OccursIn-repeated (at_head {n = n} {ns = ns} o) h =
        Occurs-repeated o
          (or-false (has_ambiguous_repeated_alternation n) (some_ambiguous_repeated ns) h).0
    OccursIn-repeated (at_tail {n = n} {ns = ns} o) h =
        OccursIn-repeated o
          (or-false (has_ambiguous_repeated_alternation n) (some_ambiguous_repeated ns) h).1

accepted_parts :
    (tree : RegexNode)
    → classify_unsafe_group (some tree) ≡ none
    → (has_nested_regex_repetition tree ≡ false) × (has_ambiguous_repeated_alternation tree ≡ false)
unfolding classify_unsafe_group
accepted_parts tree h = ground arith

-- Two branches of one alternation, which stands somewhere under a repetition of the tree, that match
-- the same word.
pub record AmbiguousBranches (tree : RegexNode) (i j : ℕ) : Type 0 where
  pub child : RegexNode
  pub lo : ℕ
  pub hi : Option ℕ
  pub variable : Bool
  pub branches : RegexNodes
  pub first : RegexNode
  pub second : RegexNode
  pub word : Word
  pub repeats : Occurs (repetition child lo hi variable) tree
  pub inside : Occurs (alternation branches) child
  pub first_at : branch_at i branches ≡ some first
  pub second_at : branch_at j branches ≡ some second
  pub first_matches : Matches first word
  pub second_matches : Matches second word

-- In a pattern that the analysis accepts, whatever it is made of, no repetition stands inside another,
-- and no two different branches of an alternation that stands under a repetition match the same word.
pub classify_unsafe_group_sound :
    (tree : RegexNode)
    → classify_unsafe_group (some tree) ≡ none
    → (repetition_depth tree ≤ 1) × ¬ ((i : ℕ) × (j : ℕ) × (i ≢ j) × AmbiguousBranches tree i j)
classify_unsafe_group_sound tree h =
    let (shallow, clear) = accepted_parts tree h in
    (
      ground (arith, has_nested-depth tree),
      λ ambiguous.
          let a = ambiguous.3 in
          ambiguous.2 (
            regex_alternation_branches_overlap_sound a.branches ambiguous.0 ambiguous.1 a.first
              a.second a.word
              (Occurs-within a.branches a.inside
                (Occurs-repeated a.child a.lo a.hi a.variable a.repeats clear))
              a.first_at a.second_at a.first_matches a.second_matches),
    )
