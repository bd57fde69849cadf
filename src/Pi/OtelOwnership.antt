-- ===== src/Pi/OtelOwnership.antt =====
-- src/pi/otel-operation-ownership.ts: the flushes and shutdowns that a session left behind, which the
-- process settles before it starts a new one.
-- The promises and the awaits are steps: an operation that is owned has a number, in the order in
-- which it was added to the set, a settlement that is awaited is the number of its promise, and a
-- resolution is where its two loops stand: at the retry that they await, or at what they returned until
-- `finishResolution` goes on and forgets it.
mod Examples
pub mod Invariant
pub mod Order
use observ_me.Prelude.{
  ℕ, ◌+◌, ◌==◌, nat_eq, Bool, true, false, not, ◌&&◌, ◌||◌, Option, none, some, List, [], ◌∷◌, ◌++◌,
  ltb, if◌then◌else◌, is_some,
}
use observ_me.Util.JsMap.{JsMap, get, has, put, delete}

pub data OtelOperation : Type 0 where
  flush shutdown : OtelOperation

abbrev pub same_operation : OtelOperation → OtelOperation → Bool
same_operation flush flush = true
same_operation shutdown shutdown = true
same_operation _ _ = false

-- `failed` says that the error is there and true.
pub record OtelOperationSettlement : Type 0 where
  pub operation : OtelOperation
  pub is_completed : Bool
  pub failed : Bool

pub record BoundedOtelOperationResult : Type 0 where
  pub operation : OtelOperation
  pub is_completed : Bool
  pub timed_out : Bool
  pub failed : Bool
  -- The promise of the settlement.
  pub settlement : Option ℕ

pub data OwnedOperationState : Type 0 where
  settling retryable : OwnedOperationState

pub record OwnedOtelOperation : Type 0 where
  pub operation : OtelOperation
  pub state : OwnedOperationState
  pub pending_settlement : Option ℕ

-- The resolution that awaits the retry of an operation, by the loop that it is in.
pub record Awaited : Type 0 where
  pub phase : OtelOperation
  pub id : ℕ

-- Where the loops come to: they return, or they await a retry.
pub data Progress : Type 0 where
  returned : Bool → Progress
  awaiting : Awaited → Progress

pub record Ownership : Type 0 where
  pub operations : JsMap ℕ OwnedOtelOperation
  pub next_id : ℕ
  pub diagnostic_emitted : Bool
  pub resolution : Option Progress
  -- What the observers were told, by the operation's number, the newest last.
  pub notified : List (ℕ × OtelOperationSettlement)

unfoldable pub create_otel_operation_ownership : Ownership
create_otel_operation_ownership = record {
  operations = [];
  next_id = 0;
  diagnostic_emitted = false;
  resolution = none;
  notified = [];
}

abbrev pub is_empty {ℓ} : {A : Type ℓ} → List A → Bool
is_empty [] = true
is_empty (x ∷ xs) = false

unfoldable pub has_unresolved_operations : Ownership → Bool
has_unresolved_operations o = not (is_empty o.operations)

unfoldable pub operation_completed : (is_completed timed_out failed : Bool) → Bool
operation_completed is_completed timed_out failed = is_completed && not timed_out && not failed

abbrev pub result_completed : BoundedOtelOperationResult → Bool
result_completed r = operation_completed r.is_completed r.timed_out r.failed

unfoldable pub operation_can_retry : BoundedOtelOperationResult → Bool
operation_can_retry r = not r.timed_out && not (is_some r.settlement)

abbrev pub state_after : BoundedOtelOperationResult → OwnedOperationState
state_after r = if operation_can_retry r then retryable else settling

-- `observePendingSettlement` of an operation: the promise that is awaited.
unfoldable pub observe_pending_settlement : Option ℕ → OwnedOtelOperation → OwnedOtelOperation
observe_pending_settlement none op = op
observe_pending_settlement (some promise) op = record op {
  state = settling;
  pending_settlement = some promise;
}

unfoldable pub retain : BoundedOtelOperationResult → Ownership → Ownership
retain r o =
    let owned : OwnedOtelOperation = record {
      operation = r.operation;
      state = state_after r;
      pending_settlement = none;
    } in
    if result_completed r then o else record o {
      operations = put o.next_id (observe_pending_settlement r.settlement owned) o.operations;
      next_id = o.next_id + 1;
    }

unfoldable pub release : ℕ → Ownership → Ownership
release id o =
    let operations = delete id o.operations in
    if has id o.operations
    then record o {
      operations = operations;
      diagnostic_emitted = if is_empty operations then false else o.diagnostic_emitted;
    }
    else o

-- Whether the diagnostic is to be shown.
unfoldable pub take_startup_diagnostic : Ownership → Bool × Ownership
take_startup_diagnostic o =
    if not (has_unresolved_operations o) || o.diagnostic_emitted
    then (false, o)
    else (true, record o { diagnostic_emitted = true })

-- The next operation of the loop: of its kind, and added after the one before it.
abbrev pub next_operation :
    OtelOperation → ℕ → JsMap ℕ OwnedOtelOperation → Option (ℕ × OwnedOtelOperation)
next_operation phase from [] = none
next_operation phase from ((id, op) ∷ operations) =
    let rest = next_operation phase from operations in
    if not (ltb id from) && same_operation op.operation phase then some (id, op) else rest

abbrev pub at_operation : OtelOperation → Progress → Option (ℕ × OwnedOtelOperation) → Progress
at_operation phase after none = after
at_operation phase after (some (id, op)) = elim op.state [
  | settling ↦ returned false
  | retryable ↦ awaiting (record { phase = phase; id = id })
]

-- `retryUnresolvedOperations` up to its next await or its return: the loop over shutdowns follows the
-- one over flushes.
unfoldable pub advance : OtelOperation → ℕ → Ownership → Progress
unfolding has_unresolved_operations
advance shutdown from o =
    at_operation shutdown (returned (not (has_unresolved_operations o)))
      (next_operation shutdown from o.operations)
advance flush from o =
    at_operation flush
      (at_operation shutdown (returned (not (has_unresolved_operations o)))
        (next_operation shutdown 0 o.operations))
      (next_operation flush from o.operations)

abbrev pub with_progress : Progress → Ownership → Ownership
with_progress p o = record o { resolution = some p }

-- One that finds a resolution, which may have returned already, awaits that one.
unfoldable pub resolve_before_start : Ownership → Ownership
unfolding advance
resolve_before_start o = elim o.resolution [
  | some p ↦ o
  | none ↦ with_progress (advance flush 0 o) o
]

unfoldable pub retried : BoundedOtelOperationResult → OwnedOtelOperation → OwnedOtelOperation
unfolding observe_pending_settlement
retried r op = observe_pending_settlement r.settlement (record op { state = state_after r })

-- The operation object that the loop holds is changed wherever it is in the set.
abbrev pub update_owned :
    (OwnedOtelOperation → OwnedOtelOperation)
    → ℕ
    → Option OwnedOtelOperation
    → JsMap ℕ OwnedOtelOperation
    → JsMap ℕ OwnedOtelOperation
update_owned f id none operations = operations
update_owned f id (some op) operations = put id (f op) operations

abbrev pub change_owned : (OwnedOtelOperation → OwnedOtelOperation) → ℕ → Ownership → Ownership
change_owned f id o = record o { operations = update_owned f id (get id o.operations) o.operations }

-- The awaited retry gives a result.
unfoldable pub retry_returned : BoundedOtelOperationResult → Awaited → Ownership → Ownership
unfolding release advance
retry_returned r w o =
    let released = release w.id o in
    if result_completed r
    then with_progress (advance w.phase (w.id + 1) released) released
    else with_progress (returned false) (change_owned (retried r) w.id o)

abbrev pub is_promise : ℕ → Option ℕ → Bool
is_promise promise none = false
is_promise promise (some p) = p == promise

abbrev pub settled : OwnedOtelOperation → OwnedOtelOperation
settled op = record op { state = retryable; pending_settlement = none }

unfoldable pub apply_to :
    ℕ → ℕ → OtelOperationSettlement → Ownership → Option OwnedOtelOperation → Ownership
unfolding release
apply_to id promise settlement o none = o
apply_to id promise settlement o (some op) =
    let told = record o { notified = o.notified ++ (id, settlement) ∷ [] } in
    if not (is_promise promise op.pending_settlement)
    then o
    else if operation_completed settlement.is_completed false settlement.failed
    then release id told
    else record told { operations = put id (settled op) o.operations }

-- `applyPendingSettlement` when the promise has settled; a promise that fails settles as an operation
-- that failed (`resolveSettlement`).
unfoldable pub apply_pending_settlement :
    (id promise : ℕ) → OtelOperationSettlement → Ownership → Ownership
unfolding apply_to
apply_pending_settlement id promise settlement o =
    apply_to id promise settlement o (get id o.operations)

-- What happens to the process, one thing after another. Between the return of the loops and
-- `resolution_finished` other things can happen: `finishResolution` awaits the promise of the loops.
pub data Event : Type 0 where
  retained : BoundedOtelOperationResult → Event
  start_requested : Event
  diagnostic_requested : Event
  retry_settled : BoundedOtelOperationResult → Event
  resolution_finished : Event
  promise_settled : (id promise : ℕ) → OtelOperationSettlement → Event

unfoldable pub retry_step : BoundedOtelOperationResult → Option Progress → Ownership → Ownership
unfolding retry_returned
retry_step r (some (awaiting w)) o = retry_returned r w o
retry_step r _ o = o

-- `finishResolution` past its await: the resolution is forgotten.
unfoldable pub finish_resolution : Option Progress → Ownership → Ownership
finish_resolution (some (returned b)) o = record o { resolution = none }
finish_resolution _ o = o

unfoldable pub step : Event → Ownership → Ownership
unfolding retain resolve_before_start take_startup_diagnostic apply_pending_settlement retry_step
    finish_resolution
step (retained r) o = retain r o
step start_requested o = resolve_before_start o
step diagnostic_requested o = (take_startup_diagnostic o).1
step (retry_settled r) o = retry_step r o.resolution o
step resolution_finished o = finish_resolution o.resolution o
step (promise_settled id promise settlement) o = apply_pending_settlement id promise settlement o

abbrev pub returned_value : Option Progress → Option Bool
returned_value (some (returned b)) = some b
returned_value _ = none

-- What those that called `resolveBeforeStart` are told at this event, if anything.
unfoldable pub answer : Event → Ownership → Option Bool
answer resolution_finished o = returned_value o.resolution
answer _ o = none

unfoldable pub run : List Event → Ownership → Ownership
unfolding step
run [] o = o
run (e ∷ events) o = run events (step e o)
