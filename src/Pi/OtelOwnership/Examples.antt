-- ===== src/Pi/OtelOwnership/Examples.antt =====
-- A shutdown that timed out and settles late, while a new session wants to start.
use observ_me.Prelude.{◌≡◌, refl, true, false, none, some, List, [], ◌∷◌}
use observ_me.Pi.OtelOwnership.{
  Ownership, shutdown, flush, BoundedOtelOperationResult, OtelOperationSettlement, Event, retained,
  start_requested, diagnostic_requested, retry_settled, promise_settled, run,
  create_otel_operation_ownership, has_unresolved_operations, step, resolve_before_start, retain,
  operation_completed, operation_can_retry, observe_pending_settlement, awaiting, answer,
  resolution_finished, advance,
}
use observ_me.Pi.OtelOwnership.Invariant.{IsSound, run-IsSound}
use observ_me.Pi.OtelOwnership.Order.{resolve_before_start-first}

abbrev timed_out_shutdown : BoundedOtelOperationResult
timed_out_shutdown = record {
  operation = shutdown;
  is_completed = false;
  timed_out = true;
  failed = false;
  settlement = some 7;
}

abbrev completed_shutdown : BoundedOtelOperationResult
completed_shutdown = record {
  operation = shutdown;
  is_completed = true;
  timed_out = false;
  failed = false;
  settlement = none;
}

abbrev failed_settlement : OtelOperationSettlement
failed_settlement = record { operation = shutdown; is_completed = false; failed = true }

abbrev events : List Event
events =
    retained timed_out_shutdown
    ∷ diagnostic_requested
    ∷ start_requested
    ∷ promise_settled 0 7 failed_settlement
    ∷ start_requested
    ∷ retry_settled completed_shutdown
    ∷ resolution_finished
    ∷ []

run-IsSound_example : IsSound (run events create_otel_operation_ownership)
run-IsSound_example = run-IsSound events

-- A shutdown that can be retried, then a flush.
abbrev failed_flush : BoundedOtelOperationResult
failed_flush = record {
  operation = flush;
  is_completed = false;
  timed_out = false;
  failed = true;
  settlement = none;
}

abbrev two_owned : Ownership
two_owned =
    run (retained (record failed_flush { operation = shutdown }) ∷ retained failed_flush ∷ [])
      create_otel_operation_ownership

resolve_before_start-first_example :
    ((resolve_before_start two_owned).resolution
      ≡ some (awaiting (record { phase = flush; id = 1 })))
    × ((resolve_before_start two_owned).operations ≡ two_owned.operations)
unfolding run step retain operation_completed operation_can_retry observe_pending_settlement
    create_otel_operation_ownership
resolve_before_start-first_example = resolve_before_start-first two_owned refl

-- While `resolution_finished` is to come, an operation that is owned meanwhile does not change the
-- answer.
stale_answer :
    answer resolution_finished
      (run (start_requested ∷ retained failed_flush ∷ []) create_otel_operation_ownership)
    ≡ some true
unfolding run step retain operation_completed operation_can_retry observe_pending_settlement
    create_otel_operation_ownership resolve_before_start advance has_unresolved_operations answer
stale_answer = refl
