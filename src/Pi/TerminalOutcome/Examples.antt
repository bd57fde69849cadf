-- ===== src/Pi/TerminalOutcome/Examples.antt =====
-- The outcome of a turn in which one message failed and a later one was well.
use observ_me.Prelude.{◌≡◌, true, none, some, [], ◌∷◌}
use observ_me.Pi.TerminalOutcome.{
  derive_message_outcome, derive_single_message_outcome, error, tool_result, assistant, stop,
}
use observ_me.Pi.TerminalOutcome.Worst.{derive_message_outcome_lem}

derive_message_outcome_lem_example :
    derive_message_outcome (some (tool_result true) ∷ none ∷ some (assistant stop) ∷ []) ≡ error
unfolding derive_single_message_outcome
derive_message_outcome_lem_example =
    derive_message_outcome_lem (some (tool_result true) ∷ none ∷ some (assistant stop) ∷ [])
