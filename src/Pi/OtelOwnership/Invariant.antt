-- ===== src/Pi/OtelOwnership/Invariant.antt =====
-- What holds of the operations that are owned between two events.
use mathlib.Core.Path.{subst}
use observ_me.Prelude.{
  ℕ, ◌+◌, ◌<◌, ◌≡◌, refl, sym, ◌∙◌, ◌⊎◌, inl, inr, ◌==◌, nat_eq, Bool, true, false, not, ◌&&◌,
  Option, none, some, List, [], ◌∷◌, ◌++◌, arith, if◌then◌else◌, if_elim, ltb, same_refl,
  Bool-cases, Option-cases,
}
use observ_me.Util.JsMap.{
  JsMap, get, has, put, delete, IsUnique, put-IsUnique, delete-IsUnique, get-put, get-delete,
  is_some-get,
}
use observ_me.Util.JsMap.Entries.{Entries, Entries-put, Entries-delete, Entries-map, Entries-get}
use observ_me.Pi.OtelOwnership.{
  same_operation, OtelOperation, flush, shutdown, OtelOperationSettlement,
  BoundedOtelOperationResult, OwnedOperationState, settling, retryable, OwnedOtelOperation, Awaited,
  Ownership, Progress, returned, awaiting, is_empty, has_unresolved_operations, result_completed,
  state_after, observe_pending_settlement, retain, release, take_startup_diagnostic, next_operation,
  at_operation, advance, with_progress, resolve_before_start, retried, change_owned, retry_returned,
  is_promise, settled, apply_to, apply_pending_settlement, retry_step, finish_resolution, Event,
  step, run, resolution_finished, operation_completed, retained, start_requested,
  diagnostic_requested, retry_settled, promise_settled, create_otel_operation_ownership,
}

-- An operation that was added before `next`, and that awaits no promise while it can be retried.
pub record IsOwned (next id : ℕ) (op : OwnedOtelOperation) : Type 0 where
  pub added : id < next
  pub quiet : op.state ≡ retryable → op.pending_settlement ≡ none

-- The operation whose retry is awaited can be retried, as long as it is owned.
abbrev pub AwaitsRetryable : Ownership → Awaited → Type 0
AwaitsRetryable o w =
    (w.id < o.next_id)
    × ((op : OwnedOtelOperation) → get w.id o.operations ≡ some op → op.state ≡ retryable)

pub record IsSound (o : Ownership) : Type 0 where
  pub unique : IsUnique o.operations
  pub owned : Entries (IsOwned o.next_id) o.operations
  -- The diagnostic counts as shown only while something is left.
  pub shown : o.diagnostic_emitted ≡ true → is_empty o.operations ≡ false
  pub awaited : (w : Awaited) → o.resolution ≡ some (awaiting w) → AwaitsRetryable o w

is_empty-put :
    (id : ℕ) (op : OwnedOtelOperation) (m : JsMap ℕ OwnedOtelOperation)
    → is_empty (put id op m) ≡ false
is_empty-put id op [] = refl
is_empty-put id op ((k, v) ∷ m) = if_elim (k == id) (λ l. is_empty l ≡ false) refl refl

observe_pending_settlement-quiet :
    (promise : Option ℕ) (op : OwnedOtelOperation)
    → op.pending_settlement ≡ none
    → (observe_pending_settlement promise op).state ≡ retryable
    → (observe_pending_settlement promise op).pending_settlement ≡ none
unfolding observe_pending_settlement
observe_pending_settlement-quiet none op none_before h = none_before
observe_pending_settlement-quiet (some promise) op none_before h = cc

some_inj {ℓ} : {A : Type ℓ} {x y : A} → some x ≡ some y → x ≡ y
some_inj h = cc h

pub state-cases : (s : OwnedOperationState) → (s ≡ settling) ⊎ (s ≡ retryable)
state-cases settling = inl refl
state-cases retryable = inr refl

get-of_put_other :
    (k j : ℕ) (v : OwnedOtelOperation) (m : JsMap ℕ OwnedOtelOperation) {op : OwnedOtelOperation}
    → j < k
    → get j (put k v m) ≡ some op
    → get j m ≡ some op
get-of_put_other k j v m less found =
    let apart : (k == j) ≡ false = ground (arith) in
    let put_there = rw (get-put k j v m, apart) at found in put_there

get-of_delete :
    (k j : ℕ) (m : JsMap ℕ OwnedOtelOperation) {op : OwnedOtelOperation}
    → get j (delete k m) ≡ some op
    → get j m ≡ some op
get-of_delete k j m found = elim (Bool-cases (k == j)) [
  | inl same ↦
      let none_there : none ≡ some _ = rw (get-delete k j m, same) at found in
      absurd (cc none_there)
  | inr apart ↦ rw (get-delete k j m, apart) at found
]

retain-IsSound : (r : BoundedOtelOperationResult) (o : Ownership) → IsSound o → IsSound (retain r o)
unfolding retain
retain-IsSound r o s =
    let owned : OwnedOtelOperation = record {
      operation = r.operation;
      state = state_after r;
      pending_settlement = none;
    } in
    let added = observe_pending_settlement r.settlement owned in
    if_elim (result_completed r) IsSound s (record {
      unique = put-IsUnique o.next_id added o.operations s.unique;
      owned =
          Entries-put (IsOwned (o.next_id + 1)) o.next_id added o.operations
            (record {
              added = omega arith;
              quiet = observe_pending_settlement-quiet r.settlement owned refl;
            })
            (Entries-map (IsOwned o.next_id) (IsOwned (o.next_id + 1)) o.operations
              (λ k v p. record { added = omega (arith, p.added); quiet = p.quiet }) s.owned);
      shown = λ h. is_empty-put o.next_id added o.operations;
      awaited = λ w h. (
        omega (arith, (s.awaited w h).0),
        λ op found. (s.awaited w h).1 op (
            get-of_put_other o.next_id w.id added o.operations (omega (arith, (s.awaited w h).0))
              found),
      );
    })

emptied :
    (m : JsMap ℕ OwnedOtelOperation) (b : Bool)
    → (if is_empty m then false else b) ≡ true
    → is_empty m ≡ false
emptied [] b h = cc
emptied (x ∷ m) b h = refl

release-IsSound : (id : ℕ) (o : Ownership) → IsSound o → IsSound (release id o)
unfolding release
release-IsSound id o s =
    if_elim (has id o.operations) IsSound
      (record {
        unique = delete-IsUnique id o.operations s.unique;
        owned = Entries-delete (IsOwned o.next_id) id o.operations s.owned;
        shown = emptied (delete id o.operations) o.diagnostic_emitted;
        awaited = λ w h. (
          (s.awaited w h).0,
          λ op found. (s.awaited w h).1 op (get-of_delete id w.id o.operations found),
        );
      })
      s

take_startup_diagnostic-IsSound :
    (o : Ownership) → IsSound o → IsSound (take_startup_diagnostic o).1
unfolding take_startup_diagnostic has_unresolved_operations
take_startup_diagnostic-IsSound o s = elim (Bool-cases (is_empty o.operations)) [
  | inl none_left ↦ rw (take_startup_diagnostic, none_left) s
  | inr left ↦
      rw (take_startup_diagnostic, left)
        (if_elim o.diagnostic_emitted (λ (t : Bool × Ownership). IsSound t.1) s
          (record { unique = s.unique; owned = s.owned; shown = λ h. left; awaited = s.awaited }))
]

-- The operation that a loop comes to is in the set.
next_operation-found :
    (phase : OtelOperation) (from : ℕ) (m : JsMap ℕ OwnedOtelOperation) (id : ℕ)
    (op : OwnedOtelOperation)
    → IsUnique m
    → next_operation phase from m ≡ some (id, op)
    → get id m ≡ some op
next_operation-found phase from [] id op u h = cc
next_operation-found phase from ((k, v) ∷ m) id op u h =
    elim (Bool-cases (not (ltb k from) && same_operation v.operation phase)) [
      | inl here ↦
          let same : some (k, v) ≡ some (id, op) = rw here at h in
          let key : k ≡ id = cc same in
          let value : v ≡ op = cc same in rw (key, value, same_refl id) refl
      | inr there ↦
          let found = next_operation-found phase from m id op u.1 (rw there at h) in
          let apart : (k == id) ≡ false = ground (arith, is_some-get id m, u.0, found) in
          rw apart found
    ]

abbrev Awaits : Ownership → Progress → Type 0
Awaits o p = (w : Awaited) → p ≡ awaiting w → AwaitsRetryable o w

awaiting_inj : {v w : Awaited} → awaiting v ≡ awaiting w → v ≡ w
awaiting_inj h = cc h

at_retryable :
    (o : Ownership) (phase : OtelOperation) (after : Progress) (id : ℕ) (op : OwnedOtelOperation)
    → get id o.operations ≡ some op
    → IsSound o
    → Awaits o (at_operation phase after (some (id, op)))
at_retryable o phase after id op found s w h = elim (state-cases op.state) [
  | inl waits ↦ absurd (cc (rw waits at h))
  | inr can ↦
      let same : record { phase = phase; id = id } ≡ w = awaiting_inj (rw can at h) in
      subst (AwaitsRetryable o) same (
        (Entries-get (IsOwned o.next_id) id op o.operations s.owned found).added,
        λ other there.
            let one : op ≡ other = some_inj (sym found ∙ there) in
            subst (λ (x : OwnedOtelOperation). x.state ≡ retryable) one can,
      )
]

at_operation-Awaits :
    (o : Ownership) (phase : OtelOperation) (from : ℕ) (after : Progress)
    → IsSound o
    → Awaits o after
    → Awaits o (at_operation phase after (next_operation phase from o.operations))
at_operation-Awaits o phase from after s later =
    elim (Option-cases (next_operation phase from o.operations)) [
      | inl end ↦ rw end later
      | inr ((id, op), next) ↦ rw next (
          at_retryable o phase after id op
            (next_operation-found phase from o.operations id op s.unique next) s)
    ]

advance-Awaits :
    (phase : OtelOperation) (from : ℕ) (o : Ownership) → IsSound o → Awaits o (advance phase from o)
unfolding advance
advance-Awaits shutdown from o s =
    at_operation-Awaits o shutdown from (returned (not (has_unresolved_operations o))) s
      (λ w h. absurd (cc h))
advance-Awaits flush from o s = at_operation-Awaits o flush from _ s (
    at_operation-Awaits o shutdown 0 (returned (not (has_unresolved_operations o))) s
      (λ w h. absurd (cc h)))

with_progress-IsSound :
    (p : Progress) (o : Ownership) → Awaits o p → IsSound o → IsSound (with_progress p o)
with_progress-IsSound p o can s = record {
  unique = s.unique;
  owned = s.owned;
  shown = s.shown;
  awaited = λ w h. can w (some_inj h);
}

resolve_before_start-IsSound : (o : Ownership) → IsSound o → IsSound (resolve_before_start o)
unfolding resolve_before_start
resolve_before_start-IsSound o s = elim (Option-cases o.resolution) [
  | inl idle ↦
      rw (resolve_before_start, idle)
        (with_progress-IsSound (advance flush 0 o) o (advance-Awaits flush 0 o s) s)
  | inr (w, busy) ↦ rw (resolve_before_start, busy) s
]

-- Changing an owned operation in place keeps what is sound, where it keeps the operation quiet; the
-- resolution is left out.
change-IsSound :
    (o : Ownership) (id : ℕ) (op changed : OwnedOtelOperation)
    → get id o.operations ≡ some op
    → (changed.state ≡ retryable → changed.pending_settlement ≡ none)
    → IsSound o
    → IsSound
        (record o { operations = put id changed o.operations; resolution = some (returned false) })
change-IsSound o id op changed found quiet s = record {
  unique = put-IsUnique id changed o.operations s.unique;
  owned =
      Entries-put (IsOwned o.next_id) id changed o.operations
        (record {
          added = (Entries-get (IsOwned o.next_id) id op o.operations s.owned found).added;
          quiet = quiet;
        })
        s.owned;
  shown = λ h. is_empty-put id changed o.operations;
  awaited = λ w h. absurd (cc h);
}

retry_returned-IsSound :
    (r : BoundedOtelOperationResult) (w : Awaited) (o : Ownership)
    → o.resolution ≡ some (awaiting w)
    → IsSound o
    → IsSound (retry_returned r w o)
unfolding retry_returned retried
retry_returned-IsSound r w o busy s =
    let released = release w.id o in
    let sound = release-IsSound w.id o s in
    let success =
      with_progress-IsSound (advance w.phase (w.id + 1) released) released
        (advance-Awaits w.phase (w.id + 1) released sound) sound in
    let again : IsSound (with_progress (returned false) (change_owned (retried r) w.id o)) =
      elim (Option-cases (get w.id o.operations)) [
        | inl gone ↦ rw gone (record {
          unique = s.unique;
          owned = s.owned;
          shown = s.shown;
          awaited = λ v h. absurd (cc h);
        })
        | inr (op, found) ↦
            let owned = Entries-get (IsOwned o.next_id) w.id op o.operations s.owned found in
            rw found (
              change-IsSound o w.id op (retried r op) found
                (observe_pending_settlement-quiet r.settlement (record op { state = state_after r })
                  (owned.quiet ((s.awaited w busy).1 op found)))
                s)
      ] in
    if_elim (result_completed r) IsSound success again

settled-Awaits :
    (o : Ownership) (id : ℕ) (op : OwnedOtelOperation) (w : Awaited)
    → AwaitsRetryable o w
    → AwaitsRetryable (record o { operations = put id (settled op) o.operations }) w
settled-Awaits o id op w can = (
  can.0,
  λ other found. elim (Bool-cases (id == w.id)) [
    | inl same ↦
        let here : some (settled op) ≡ some other =
          rw (get-put id w.id (settled op) o.operations, same) at found in
        subst (λ (x : OwnedOtelOperation). x.state ≡ retryable) (some_inj here) refl
    | inr apart ↦ can.1 other (rw (get-put id w.id (settled op) o.operations, apart) at found)
  ],
)

apply_to-IsSound :
    (id promise : ℕ) (settlement : OtelOperationSettlement) (o : Ownership)
    (op : Option OwnedOtelOperation)
    → get id o.operations ≡ op
    → IsSound o
    → IsSound (apply_to id promise settlement o op)
unfolding apply_to
apply_to-IsSound id promise settlement o none found s = s
apply_to-IsSound id promise settlement o (some op) found s =
    let told : Ownership = record o { notified = o.notified ++ (id, settlement) ∷ [] } in
    let told_sound : IsSound told = record {
      unique = s.unique;
      owned = s.owned;
      shown = s.shown;
      awaited = s.awaited;
    } in
    let kept = change-IsSound told id op (settled op) found (λ h. refl) told_sound in
    let changed : IsSound (record told { operations = put id (settled op) o.operations }) = record {
      unique = kept.unique;
      owned = kept.owned;
      shown = kept.shown;
      awaited = λ w h. settled-Awaits told id op w (s.awaited w h);
    } in
    if_elim (not (is_promise promise op.pending_settlement)) IsSound s (
      if_elim (operation_completed settlement.is_completed false settlement.failed) IsSound
        (release-IsSound id told told_sound) changed)

retry_step-IsSound :
    (r : BoundedOtelOperationResult) (p : Option Progress) (o : Ownership)
    → o.resolution ≡ p
    → IsSound o
    → IsSound (retry_step r p o)
unfolding retry_step
retry_step-IsSound r none o idle s = s
retry_step-IsSound r (some (returned b)) o done s = s
retry_step-IsSound r (some (awaiting w)) o busy s = retry_returned-IsSound r w o busy s

finish_resolution-IsSound :
    (p : Option Progress) (o : Ownership) → IsSound o → IsSound (finish_resolution p o)
unfolding finish_resolution
finish_resolution-IsSound none o s = s
finish_resolution-IsSound (some (awaiting w)) o s = s
finish_resolution-IsSound (some (returned b)) o s = record {
  unique = s.unique;
  owned = s.owned;
  shown = s.shown;
  awaited = λ w h. absurd (cc h);
}

step-IsSound : (e : Event) (o : Ownership) → IsSound o → IsSound (step e o)
unfolding step apply_pending_settlement
step-IsSound (retained r) o s = retain-IsSound r o s
step-IsSound start_requested o s = resolve_before_start-IsSound o s
step-IsSound diagnostic_requested o s = take_startup_diagnostic-IsSound o s
step-IsSound (retry_settled r) o s = retry_step-IsSound r o.resolution o refl s
step-IsSound resolution_finished o s = finish_resolution-IsSound o.resolution o s
step-IsSound (promise_settled id promise settlement) o s =
    apply_to-IsSound id promise settlement o (get id o.operations) refl s

run-IsSound_from : (events : List Event) (o : Ownership) → IsSound o → IsSound (run events o)
unfolding run
run-IsSound_from [] o s = s
run-IsSound_from (e ∷ events) o s = run-IsSound_from events (step e o) (step-IsSound e o s)

-- Whatever sessions leave behind, and in whatever order retries and late settlements come in: the
-- operations owned are distinct, one that can be retried awaits no promise, the operation whose retry
-- is awaited can be retried as long as it is owned, and the diagnostic counts as shown only while some
-- operation is left, so that it is shown again when new ones are.
pub run-IsSound : (events : List Event) → IsSound (run events create_otel_operation_ownership)
unfolding create_otel_operation_ownership
run-IsSound events =
    run-IsSound_from events _ (record {
      unique = tt;
      owned = tt;
      shown = λ h. absurd (cc h);
      awaited = λ w h. absurd (cc h);
    })
