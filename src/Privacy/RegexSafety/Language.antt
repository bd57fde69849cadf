-- ===== src/Privacy/RegexSafety/Language.antt =====
-- The words that an analysed pattern matches, as a relation. Assertions count as empty, and a domain
-- that is not known allows every code point.
use observ_me.Prelude.{
  ℕ, zero, suc, sym, ◌∙◌, ◌≤◌, ◌≡◌, refl, ◌⊎◌, inl, inr, Bool, true, Option, none, some, List, [],
  ◌∷◌, ◌++◌, arith, nat_eq,
}
use observ_me.Privacy.RegexSafety.Ranges.{Domain}
use observ_me.Privacy.RegexSafety.Ranges.Merge.{in_ranges}
use observ_me.Privacy.RegexSafety.{
  RegexNode, empty, character, repetition, alternation, sequence, RegexNodes, nil, cons,
  regex_node_can_match_empty, some_can_match_empty, all_can_match_empty,
}

abbrev pub Word : Type 0
Word = List ℕ

abbrev pub Allows : Option Domain → ℕ → Type 0
Allows none c = Unit
Allows (some d) c = in_ranges c d ≡ true

abbrev pub IsWithin : ℕ → Option ℕ → Type 0
IsWithin n none = Unit
IsWithin n (some m) = n ≤ m

mutual
  pub data Matches : RegexNode → Word → Type 0 where
    nothing : Matches empty []
    one : {d : Option Domain} {c : ℕ} → Allows d c → Matches (character d) (c ∷ [])
    repeated :
        {child : RegexNode} {lo : ℕ} {hi : Option ℕ} {v : Bool} {w : Word} (n : ℕ)
        → lo ≤ n
        → IsWithin n hi
        → Repeats child n w
        → Matches (repetition child lo hi v) w
    branch : {ns : RegexNodes} {w : Word} → MatchesOne ns w → Matches (alternation ns) w
    children : {ns : RegexNodes} {w : Word} → MatchesEach ns w → Matches (sequence ns) w

  pub data Repeats : RegexNode → ℕ → Word → Type 0 where
    done : {child : RegexNode} → Repeats child zero []
    again :
        {child : RegexNode} {n : ℕ} {w : Word} (u v : Word)
        → w ≡ u ++ v
        → Matches child u
        → Repeats child n v
        → Repeats child (suc n) w

  pub data MatchesOne : RegexNodes → Word → Type 0 where
    this : {n : RegexNode} {ns : RegexNodes} {w : Word} → Matches n w → MatchesOne (cons n ns) w
    other :
        {n : RegexNode} {ns : RegexNodes} {w : Word} → MatchesOne ns w → MatchesOne (cons n ns) w

  pub data MatchesEach : RegexNodes → Word → Type 0 where
    finished : MatchesEach nil []
    step :
        {n : RegexNode} {ns : RegexNodes} {w : Word} (u v : Word)
        → w ≡ u ++ v
        → Matches n u
        → MatchesEach ns v
        → MatchesEach (cons n ns) w

pub append-nil_parts : (u v : Word) → u ++ v ≡ [] → (u ≡ []) × (v ≡ [])
append-nil_parts [] v h = (refl, h)
append-nil_parts (c ∷ u) v h = cc

pub append-cons_parts :
    (u v : Word) (c : ℕ) (t : Word)
    → u ++ v ≡ c ∷ t
    → ((u ≡ []) × (v ≡ c ∷ t)) ⊎ ((s : Word) × (u ≡ c ∷ s))
append-cons_parts [] v c t h = inl (refl, h)
append-cons_parts (d ∷ u) v c t h = inr (u, cc)

mutual
  unfolding regex_node_can_match_empty some_can_match_empty all_can_match_empty

  Matches-empty :
      {n : RegexNode} {w : Word} → Matches n w → w ≡ [] → regex_node_can_match_empty n ≡ true
  Matches-empty nothing e = refl
  Matches-empty (one a) e = cc
  Matches-empty (repeated n lo hi r) e = ground (arith, Repeats-empty r e)
  Matches-empty (branch m) e = MatchesOne-empty m e
  Matches-empty (children m) e = MatchesEach-empty m e

  Repeats-empty :
      {child : RegexNode} {n : ℕ} {w : Word}
      → Repeats child n w
      → w ≡ []
      → (n ≡ 0) ⊎ (regex_node_can_match_empty child ≡ true)
  Repeats-empty done e = inl refl
  Repeats-empty (again u v split m r) e =
      inr (Matches-empty m (append-nil_parts u v (sym split ∙ e)).0)

  MatchesOne-empty :
      {ns : RegexNodes} {w : Word} → MatchesOne ns w → w ≡ [] → some_can_match_empty ns ≡ true
  MatchesOne-empty (this m) e = ground (arith, Matches-empty m e)
  MatchesOne-empty (other m) e = ground (arith, MatchesOne-empty m e)

  MatchesEach-empty :
      {ns : RegexNodes} {w : Word} → MatchesEach ns w → w ≡ [] → all_can_match_empty ns ≡ true
  MatchesEach-empty finished e = refl
  MatchesEach-empty (step u v split m r) e =
      let parts = append-nil_parts u v (sym split ∙ e) in
      ground (arith, Matches-empty m parts.0, MatchesEach-empty r parts.1)

-- A pattern that matches the empty word is one that the code takes to match it.
pub can_match_empty_sound : (n : RegexNode) → Matches n [] → regex_node_can_match_empty n ≡ true
can_match_empty_sound n m = Matches-empty m refl

pub some_can_match_empty_sound :
    (ns : RegexNodes) → MatchesOne ns [] → some_can_match_empty ns ≡ true
some_can_match_empty_sound ns m = MatchesOne-empty m refl
