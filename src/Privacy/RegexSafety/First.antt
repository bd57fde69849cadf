-- ===== src/Privacy/RegexSafety/First.antt =====
-- The computed first domain covers the first code point of every word that a pattern matches.
use mathlib.Core.Path.{subst}
use observ_me.Prelude.{
  ℕ, sym, ◌∙◌, ap, ◌≡◌, refl, ◌⊎◌, inl, inr, Bool, true, false, not, ◌&&◌, Option, none, some, List,
  [], ◌∷◌, ◌++◌, arith, nat_eq, Bool-cases, Option-cases,
}
use observ_me.Privacy.RegexSafety.Ranges.{Domain, Range, merge_regex_character_ranges}
use observ_me.Privacy.RegexSafety.Ranges.Merge.{in_ranges, covers-merge}
use observ_me.Privacy.RegexSafety.Language.{
  Word, Allows, Matches, nothing, one, repeated, branch, children, Repeats, done, again, MatchesOne,
  this, other, MatchesEach, finished, step, append-cons_parts, can_match_empty_sound,
}
use observ_me.Privacy.RegexSafety.{
  RegexNode, RegexNodes, nil, cons, regex_node_can_match_empty, regex_node_first_domain,
  union_regex_node_domains, union_step, map_option,
}

in_ranges-left :
    (c : ℕ) (xs ys : List Range) → in_ranges c xs ≡ true → in_ranges c (xs ++ ys) ≡ true
in_ranges-left c [] ys h = cc
in_ranges-left c (x ∷ xs) ys h = ground (arith, in_ranges-left c xs ys)

in_ranges-right :
    (c : ℕ) (xs ys : List Range) → in_ranges c ys ≡ true → in_ranges c (xs ++ ys) ≡ true
in_ranges-right c [] ys h = h
in_ranges-right c (x ∷ xs) ys h = ground (arith, in_ranges-right c xs ys h)

-- One round of the loop: the node has a known domain, and the loop stops there or goes on.
record Round (n : RegexNode) (ns : RegexNodes) (stop : Bool) (acc out : List Range) : Type 0 where
  domain : Domain
  known : regex_node_first_domain n ≡ some domain
  ended :
      ((stop && not (regex_node_can_match_empty n) ≡ true) × (acc ++ domain ≡ out))
      ⊎ ((stop && not (regex_node_can_match_empty n) ≡ false)
          × (union_regex_node_domains ns stop (acc ++ domain) ≡ some out))

union-Round :
    (n : RegexNode) (ns : RegexNodes) (stop : Bool) (acc out : List Range)
    → union_regex_node_domains (cons n ns) stop acc ≡ some out
    → Round n ns stop acc out
unfolding union_regex_node_domains
union-Round n ns stop acc out e = elim (Option-cases (regex_node_first_domain n)) [
  | inl unknown ↦ let never : none ≡ some out = rw (unknown, union_step) at e in cc never
  | inr (d, known) ↦ elim (Bool-cases (stop && not (regex_node_can_match_empty n))) [
    | inl last ↦
        let here : some (acc ++ d) ≡ some out = rw (known, union_step, last) at e in
        record { domain = d; known = known; ended = inl (last, cc here) }
    | inr more ↦
        let later : union_regex_node_domains ns stop (acc ++ d) ≡ some out =
          rw (known, union_step, more) at e in
        record { domain = d; known = known; ended = inr (more, later) }
  ]
]

-- The loop drops none of the ranges that it has.
union_keeps :
    (ns : RegexNodes) (stop : Bool) (acc out : List Range) (c : ℕ)
    → union_regex_node_domains ns stop acc ≡ some out
    → in_ranges c acc ≡ true
    → in_ranges c out ≡ true
unfolding union_regex_node_domains
union_keeps nil stop acc out c e h =
    let same : acc ≡ out = cc e in subst (λ o. in_ranges c o ≡ true) same h
union_keeps (cons n ns) stop acc out c e h =
    let r = union-Round n ns stop acc out e in
    let kept = in_ranges-left c acc r.domain h in
    elim (r.ended) [
      | inl (last, same) ↦ subst (λ o. in_ranges c o ≡ true) same kept
      | inr (more, rest) ↦ union_keeps ns stop (acc ++ r.domain) out c rest kept
    ]

-- What the node itself contributes stays in the result.
Round-keeps :
    (n : RegexNode) (ns : RegexNodes) (stop : Bool) (acc out : List Range) (c : ℕ)
    (r : Round n ns stop acc out)
    → in_ranges c r.domain ≡ true
    → in_ranges c out ≡ true
Round-keeps n ns stop acc out c r h =
    let kept = in_ranges-right c acc r.domain h in
    elim (r.ended) [
      | inl (last, same) ↦ subst (λ o. in_ranges c o ≡ true) same kept
      | inr (more, rest) ↦ union_keeps ns stop (acc ++ r.domain) out c rest kept
    ]

-- Past a node that can match nothing the loop goes on.
Round-goes_on :
    (n : RegexNode) (ns : RegexNodes) (stop : Bool) (acc out : List Range)
    (r : Round n ns stop acc out)
    → (stop && not (regex_node_can_match_empty n)) ≡ false
    → union_regex_node_domains ns stop (acc ++ r.domain) ≡ some out
Round-goes_on n ns stop acc out r h = elim (r.ended) [
  | inl (last, same) ↦ cc (h, last)
  | inr (more, rest) ↦ rest
]

merged_parts :
    (o : Option (List Range)) (d : Domain)
    → map_option merge_regex_character_ranges o ≡ some d
    → (ranges : List Range) × (o ≡ some ranges) × (merge_regex_character_ranges ranges ≡ d)
merged_parts none d e = cc
merged_parts (some ranges) d e = (ranges, refl, cc)

allowed_first :
    (k : Option Domain) (c0 c : ℕ) (d : Domain)
    → Allows k c0
    → c0 ≡ c
    → k ≡ some d
    → in_ranges c d ≡ true
allowed_first none c0 c d a e f = cc
allowed_first (some k) c0 c d a e f =
    let same : k ≡ d = cc f in
    subst (λ x. in_ranges x d ≡ true) e (subst (λ x. in_ranges c0 x ≡ true) same a)

mutual
  unfolding regex_node_first_domain

  Matches-first :
      {n : RegexNode} {w : Word}
      → Matches n w
      → (c : ℕ) (t : Word) (d : Domain) → w ≡ c ∷ t
      → regex_node_first_domain n ≡ some d
      → in_ranges c d ≡ true
  Matches-first nothing c t d e f = cc
  Matches-first (one {d = k} {c = c0} a) c t d e f = allowed_first k c0 c d a (cc) f
  Matches-first (repeated n lo hi r) c t d e f = Repeats-first r c t d e f
  Matches-first (branch {ns = ns} m) c t d e f =
      let (ranges, found, same) = merged_parts (union_regex_node_domains ns false []) d f in
      subst (λ o. in_ranges c o ≡ true) same
        (covers-merge c ranges (MatchesOne-first m c t [] ranges e found))
  Matches-first (children {ns = ns} m) c t d e f =
      let (ranges, found, same) = merged_parts (union_regex_node_domains ns true []) d f in
      subst (λ o. in_ranges c o ≡ true) same
        (covers-merge c ranges (MatchesEach-first m c t [] ranges e found))

  Repeats-first :
      {child : RegexNode} {n : ℕ} {w : Word}
      → Repeats child n w
      → (c : ℕ) (t : Word) (d : Domain) → w ≡ c ∷ t
      → regex_node_first_domain child ≡ some d
      → in_ranges c d ≡ true
  Repeats-first done c t d e f = cc
  Repeats-first (again u v split m r) c t d e f = elim (append-cons_parts u v c t (sym split ∙ e)) [
    | inl (skip, rest) ↦ Repeats-first r c t d rest f
    | inr (s, here) ↦ Matches-first m c s d here f
  ]

  MatchesOne-first :
      {ns : RegexNodes} {w : Word}
      → MatchesOne ns w
      → (c : ℕ) (t : Word) (acc out : List Range) → w ≡ c ∷ t
      → union_regex_node_domains ns false acc ≡ some out
      → in_ranges c out ≡ true
  MatchesOne-first (this {n = n} {ns = ns} m) c t acc out e f =
      let r = union-Round n ns false acc out f in
      Round-keeps n ns false acc out c r (Matches-first m c t r.domain e r.known)
  MatchesOne-first (other {n = n} {ns = ns} m) c t acc out e f =
      let r = union-Round n ns false acc out f in
      MatchesOne-first m c t (acc ++ r.domain) out e (Round-goes_on n ns false acc out r refl)

  MatchesEach-first :
      {ns : RegexNodes} {w : Word}
      → MatchesEach ns w
      → (c : ℕ) (t : Word) (acc out : List Range) → w ≡ c ∷ t
      → union_regex_node_domains ns true acc ≡ some out
      → in_ranges c out ≡ true
  MatchesEach-first finished c t acc out e f = cc
  MatchesEach-first (step {n = n} {ns = ns} u v split m r') c t acc out e f =
      let r = union-Round n ns true acc out f in
      elim (append-cons_parts u v c t (sym split ∙ e)) [
        | inl (skip, rest) ↦
            let passes : not (regex_node_can_match_empty n) ≡ false =
              ap not (can_match_empty_sound n (subst (Matches n) skip m)) in
            MatchesEach-first r' c t (acc ++ r.domain) out rest
              (Round-goes_on n ns true acc out r passes)
        | inr (s, here) ↦
            Round-keeps n ns true acc out c r (Matches-first m c s r.domain here r.known)
      ]

-- If a pattern has a known first domain, the first code point of every word that it matches, other
-- than the empty one, is in that domain.
pub regex_node_first_domain_sound :
    (n : RegexNode) (d : Domain) (c : ℕ) (t : Word)
    → regex_node_first_domain n ≡ some d
    → Matches n (c ∷ t)
    → in_ranges c d ≡ true
regex_node_first_domain_sound n d c t f m = Matches-first m c t d refl f
