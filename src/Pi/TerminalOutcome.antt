-- ===== src/Pi/TerminalOutcome.antt =====
-- src/pi/terminal-outcome.ts: how turns, agent runs and workflows ended.
mod Examples
pub mod Worst
use observ_me.Prelude.{
  ℕ, Bool, true, false, ◌||◌, Option, none, some, List, [], ◌∷◌, ltb, if◌then◌else◌, or_default,
}

pub data TerminalOutcome : Type 0 where
  ok error cancelled unknown : TerminalOutcome

pub data StopReason : Type 0 where
  stop length tool_use errored aborted other : StopReason

-- A message of an event, by its role; `none` of an `Option Message` is a missing one.
pub data Message : Type 0 where
  tool_result : (is_error : Bool) → Message
  assistant : StopReason → Message
  other_role : Message

abbrev pub terminal_outcome_priority : TerminalOutcome → ℕ
terminal_outcome_priority ok = 0
terminal_outcome_priority unknown = 1
terminal_outcome_priority cancelled = 2
terminal_outcome_priority error = 3

unfoldable pub derive_single_message_outcome : Option Message → Option TerminalOutcome
derive_single_message_outcome none = none
derive_single_message_outcome (some (tool_result is_error)) =
    if is_error then some error else some ok
derive_single_message_outcome (some other_role) = none
derive_single_message_outcome (some (assistant errored)) = some error
derive_single_message_outcome (some (assistant aborted)) = some cancelled
derive_single_message_outcome (some (assistant stop)) = some ok
derive_single_message_outcome (some (assistant length)) = some ok
derive_single_message_outcome (some (assistant tool_use)) = some ok
derive_single_message_outcome (some (assistant other)) = some unknown

unfoldable pub merge_terminal_outcome : Option TerminalOutcome → TerminalOutcome → TerminalOutcome
merge_terminal_outcome none observed = observed
merge_terminal_outcome (some current) observed =
    if ltb (terminal_outcome_priority current) (terminal_outcome_priority observed)
    then observed
    else current

-- One round of the loop of `deriveMessageOutcome`.
abbrev pub observe : Option TerminalOutcome → Option TerminalOutcome → Option TerminalOutcome
observe outcome none = outcome
observe outcome (some observed) = some (merge_terminal_outcome outcome observed)

unfoldable pub derive_from : Option TerminalOutcome → List (Option Message) → Option TerminalOutcome
unfolding merge_terminal_outcome derive_single_message_outcome
derive_from outcome [] = outcome
derive_from outcome (m ∷ ms) = derive_from (observe outcome (derive_single_message_outcome m)) ms

unfoldable pub derive_message_outcome : List (Option Message) → TerminalOutcome
unfolding derive_from
derive_message_outcome messages = or_default (derive_from none messages) unknown

abbrev pub or_empty : Option (List (Option Message)) → List (Option Message)
or_empty none = []
or_empty (some ms) = ms

-- `toolResults` is none where the event's field is no array.
unfoldable pub derive_turn_outcome :
    Option Message → Option (List (Option Message)) → TerminalOutcome
unfolding derive_message_outcome
derive_turn_outcome message tool_results = derive_message_outcome (message ∷ or_empty tool_results)

unfoldable pub derive_agent_outcome : Option (List (Option Message)) → TerminalOutcome
unfolding derive_message_outcome
derive_agent_outcome messages = derive_message_outcome (or_empty messages)

pub data ShutdownReason : Type 0 where
  quit reload new resume fork : ShutdownReason

unfoldable pub derive_workflow_outcome : ShutdownReason → Option TerminalOutcome → TerminalOutcome
derive_workflow_outcome reason (some observed) = observed
derive_workflow_outcome reason none = unknown

pub data SpanStatusCode : Type 0 where
  status_unset status_ok status_error : SpanStatusCode

-- The code and the message that `setTerminalSpanStatus` puts on the span.
unfoldable pub terminal_span_status : TerminalOutcome → SpanStatusCode × Option TerminalOutcome
terminal_span_status ok = (status_ok, none)
terminal_span_status error = (status_error, some error)
terminal_span_status cancelled = (status_unset, some cancelled)
terminal_span_status unknown = (status_unset, some unknown)
