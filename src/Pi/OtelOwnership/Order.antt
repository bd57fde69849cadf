-- ===== src/Pi/OtelOwnership/Order.antt =====
-- The order in which what is owned is settled before a start.
use mathlib.Core.Path.{subst}
use observ_me.Prelude.{
  sym, ℕ, ◌≡◌, refl, ap, ◌∙◌, ◌⊎◌, inl, inr, Bool, true, false, not, Option, none, some, List, [],
  ◌∷◌, ◌++◌, arith, filter, Bool-cases, ltb,
}
use observ_me.Util.JsMap.{JsMap}
use observ_me.Pi.OtelOwnership.Invariant.{state-cases}
use observ_me.Pi.OtelOwnership.{
  same_operation, OtelOperation, flush, shutdown, settling, retryable, OwnedOtelOperation,
  Ownership, Progress, returned, awaiting, has_unresolved_operations, next_operation, at_operation,
  advance, resolve_before_start, is_empty,
}

abbrev pub is_of : OtelOperation → ℕ × OwnedOtelOperation → Bool
is_of phase e = same_operation e.1.operation phase

-- The operations in the order of retrying: flushes first, each kind in the order in which it was owned.
abbrev pub in_retry_order : JsMap ℕ OwnedOtelOperation → JsMap ℕ OwnedOtelOperation
in_retry_order m = filter (is_of flush) m ++ filter (is_of shutdown) m

-- What is to be done about the first of them.
abbrev pub progress_at_first : JsMap ℕ OwnedOtelOperation → Progress
progress_at_first [] = returned true
progress_at_first ((id, op) ∷ m) = elim op.state [
  | settling ↦ returned false
  | retryable ↦ awaiting (record { phase = op.operation; id = id })
]

abbrev first_of : List (ℕ × OwnedOtelOperation) → Option (ℕ × OwnedOtelOperation)
first_of [] = none
first_of (e ∷ l) = some e

from_zero : (id : ℕ) → ltb id 0 ≡ false
from_zero id = ground arith

next_operation-first :
    (phase : OtelOperation) (m : JsMap ℕ OwnedOtelOperation)
    → next_operation phase 0 m ≡ first_of (filter (is_of phase) m)
next_operation-first phase [] = refl
next_operation-first phase ((id, op) ∷ m) = elim (Bool-cases (same_operation op.operation phase)) [
  | inl e ↦ rw (e, from_zero id) refl
  | inr e ↦ rw (e, from_zero id) (next_operation-first phase m)
]

abbrev StartsWith : OtelOperation → List (ℕ × OwnedOtelOperation) → Type 0
StartsWith phase [] = Unit
StartsWith phase ((id, op) ∷ l) = phase ≡ op.operation

same_operation-equal : (a b : OtelOperation) → same_operation a b ≡ true → b ≡ a
same_operation-equal flush flush h = refl
same_operation-equal flush shutdown h = cc
same_operation-equal shutdown flush h = cc
same_operation-equal shutdown shutdown h = refl

filter-StartsWith :
    (phase : OtelOperation) (m : JsMap ℕ OwnedOtelOperation)
    → StartsWith phase (filter (is_of phase) m)
filter-StartsWith phase [] = tt
filter-StartsWith phase ((id, op) ∷ m) = elim (Bool-cases (same_operation op.operation phase)) [
  | inl e ↦ rw e (same_operation-equal op.operation phase e)
  | inr e ↦ rw e (filter-StartsWith phase m)
]

operation-cases : (a : OtelOperation) → (a ≡ flush) ⊎ (a ≡ shutdown)
operation-cases flush = inl refl
operation-cases shutdown = inr refl

is_empty-of_none :
    (m : JsMap ℕ OwnedOtelOperation)
    → filter (is_of flush) m ≡ []
    → filter (is_of shutdown) m ≡ []
    → is_empty m ≡ true
is_empty-of_none [] f s = refl
is_empty-of_none ((id, op) ∷ m) f s = elim (operation-cases op.operation) [
  | inl e ↦ cc (rw e at f)
  | inr e ↦ cc (rw e at s)
]

-- A loop over the operations of one kind, and what comes after it.
at_operation-first :
    (phase : OtelOperation) (after : Progress) (l tail : List (ℕ × OwnedOtelOperation))
    → StartsWith phase l
    → (l ≡ [] → after ≡ progress_at_first tail)
    → at_operation phase after (first_of l) ≡ progress_at_first (l ++ tail)
at_operation-first phase after [] tail starts ends = ends refl
at_operation-first phase after ((id, op) ∷ l) tail starts ends =
    subst (λ k. at_operation k after (some (id, op)) ≡ progress_at_first ((id, op) ∷ (l ++ tail)))
      (sym starts) (elim (state-cases op.state) [ inl e ↦ rw e refl | inr e ↦ rw e refl ])

at_first-append_none :
    (l : List (ℕ × OwnedOtelOperation)) → progress_at_first (l ++ []) ≡ progress_at_first l
at_first-append_none [] = refl
at_first-append_none (e ∷ l) = refl

advance-first :
    (o : Ownership) → advance flush 0 o ≡ progress_at_first (in_retry_order o.operations)
unfolding advance has_unresolved_operations
advance-first o =
    let flushes = filter (is_of flush) o.operations in
    let shutdowns = filter (is_of shutdown) o.operations in
    let end = returned (not (has_unresolved_operations o)) in
    rw (next_operation-first flush o.operations, next_operation-first shutdown o.operations)
      (at_operation-first flush (at_operation shutdown end (first_of shutdowns)) flushes shutdowns
        (filter-StartsWith flush o.operations)
        (λ f.
          at_operation-first shutdown end shutdowns [] (filter-StartsWith shutdown o.operations)
            (λ s. rw (is_empty-of_none o.operations f s) refl)
          ∙ at_first-append_none shutdowns))

-- A start that finds no resolution goes to the first of the operations that are owned, where the
-- flushes stand before the shutdowns and each kind in the order in which it was owned: with none at
-- all the resolution returns true, with one that still settles it returns false, and one that can be
-- retried is retried and its result awaited. The operations themselves stay as they are.
pub resolve_before_start-first :
    (o : Ownership)
    → o.resolution ≡ none
    → ((resolve_before_start o).resolution ≡ some (progress_at_first (in_retry_order o.operations)))
      × ((resolve_before_start o).operations ≡ o.operations)
unfolding resolve_before_start
resolve_before_start-first o idle =
    rw (resolve_before_start, idle) (ap some (advance-first o), refl)
