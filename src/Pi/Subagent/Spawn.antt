-- ===== src/Pi/Subagent/Spawn.antt =====
-- src/pi/subagent-spawn.ts: how a child's launch and its run end.
-- The state of a spawn that the code mutates in the registry is written back under its key.
use observ_me.Prelude.{
  ℕ, ◌-◌, ◌==◌, Bool, true, false, not, Option, none, some, Str, lit, str_equality, if◌then◌else◌,
  or_default,
}
use observ_me.Prelude.JsNumber.{whole}
use observ_me.Util.JsMap.{get, put, delete}
use observ_me.Pi.AgentTree.{Snapshot, get_agent}
use observ_me.Pi.AgentTree.Status.{
  AgentChildStatus, starting, active, status_eq, is_agent_status_transition_allowed,
}
use observ_me.Pi.AgentTree.Status
use observ_me.Pi.TerminalOutcome.{SpanStatusCode, status_ok, status_error}
use observ_me.Pi.Subagent.Accounting.{record_child_failure_accounting}
use observ_me.Pi.Subagent.Types.{
  SubagentTelemetrySession, SubagentSpawnState, SubagentTransitionResult, success, failure,
  spawn_not_found, child_agent_mismatch, invalid_terminal_transition, AgentTerminalStatus,
  completed, failed, cancelled, AttributeMap, text, Labels, SubagentCounter, child_agent_failures,
  parent_recovered_from_child_failure, subagent_spawn_failures, subagent_spawn_duration_ms, counted,
  recorded, attributes_set, status_set, event_added, Severity, severity_info, severity_error,
  Platform,
}
use observ_me.Pi.Subagent.Labels.{
  child_status, child_status_name, is_agent_terminal_status, child_failure_metric_labels,
  subagent_failure_metric_labels, normalize_metric_label,
}
use observ_me.Pi.Subagent.Spans.{
  emit, end_subagent_span, emit_subagent_log, update_child_status, record_obs_agents_tree_state,
}
use observ_me.Pi.Subagent.Attributes.{build_subagent_completion_attributes}

abbrev pub Transition : Type 0
Transition = SubagentTransitionResult × SubagentTelemetrySession

abbrev pub status_of : Option Snapshot → Option AgentChildStatus
status_of none = none
status_of (some snapshot) = some snapshot.node.status

-- `ensureAgentTree(session).getAgent(childAgentId)?.status`
abbrev pub current_status : Str → SubagentTelemetrySession → Option AgentChildStatus
current_status child s = status_of (get_agent s.agent_tree child)

abbrev pub is_starting : Option AgentChildStatus → Bool
is_starting none = false
is_starting (some status) = status == starting

abbrev pub count_if :
    Bool → SubagentCounter → Labels → SubagentTelemetrySession → SubagentTelemetrySession
count_if b counter labels s = if b then emit (counted counter labels) s else s

-- `recordChildFailureAccounting`, whose counters `Accounting` gives.
unfoldable pub account_child_failure :
    Platform → Str → Bool → SubagentTelemetrySession → SubagentTelemetrySession
account_child_failure p child recovery_confirmed s =
    let (c, ledger) =
      record_child_failure_accounting p.digest s.max_active_subagent_spawns child recovery_confirmed
        s.child_failures in
    let labels = child_failure_metric_labels s in
    count_if c.recovery parent_recovered_from_child_failure labels
      (count_if c.failure child_agent_failures labels (record s { child_failures = ledger }))

unfoldable pub record_child_failure_completion :
    Platform → Str → AgentTerminalStatus → SubagentTelemetrySession → SubagentTelemetrySession
unfolding account_child_failure
record_child_failure_completion p child failed s = account_child_failure p child false s
record_child_failure_completion p child _ s = s

unfoldable pub record_subagent_spawn_duration :
    Str → SubagentSpawnState → ℕ → SubagentTelemetrySession → SubagentTelemetrySession
record_subagent_spawn_duration spawn_id state now s =
    if state.launcher_completed
    then s
    else record (emit
        (recorded subagent_spawn_duration_ms (whole (now - state.started_at_ms)) state.labels) s) {
          active_subagent_spawns =
              put spawn_id (record state { launcher_completed = true }) s.active_subagent_spawns;
        }

unfoldable pub launched :
    Str → SubagentSpawnState → ℕ → SubagentTelemetrySession → SubagentTelemetrySession
launched spawn_id state now s = record_obs_agents_tree_state (
    update_child_status state.child_agent_id active
      (record_subagent_spawn_duration spawn_id state now s))

-- The launch of the spawn that was found.
unfoldable pub complete_launch_of :
    Str → Str → ℕ → SubagentTelemetrySession → SubagentSpawnState → Transition
complete_launch_of spawn_id child now s state =
    if not (child == state.child_agent_id)
    then (failure child_agent_mismatch, s)
    else if state.launcher_completed
    then (success, s)
    else if not (is_starting (current_status child s))
    then (failure invalid_terminal_transition, s)
    else (success, launched spawn_id state now s)

unfoldable pub complete_subagent_launch :
    Str → (child_agent_id : Option Str) → ℕ → SubagentTelemetrySession → Transition
unfolding complete_launch_of
complete_subagent_launch spawn_id child now s = elim (get spawn_id s.active_subagent_spawns) [
  | none ↦ (failure spawn_not_found, s)
  | some state ↦ complete_launch_of spawn_id (or_default child state.child_agent_id) now s state
]

unfoldable pub terminal_spawn_event_name : AgentTerminalStatus → Str
terminal_spawn_event_name completed = lit "agent.spawn.completed"
terminal_spawn_event_name failed = lit "agent.spawn.failed"
terminal_spawn_event_name cancelled = lit "agent.spawn.cancelled"

abbrev pub terminal_severity : AgentTerminalStatus → Severity
terminal_severity completed = severity_info
terminal_severity _ = severity_error

-- The code and the message that `setTerminalSpawnStatus` puts on the span.
unfoldable pub terminal_spawn_status : AgentTerminalStatus → SpanStatusCode × Option Str
terminal_spawn_status completed = (status_ok, none)
terminal_spawn_status status = (status_error, some (child_status_name (child_status status)))

abbrev pub remove_spawn : Str → SubagentTelemetrySession → SubagentTelemetrySession
remove_spawn spawn_id s = record s {
  active_subagent_spawns = delete spawn_id s.active_subagent_spawns;
}

-- What both ends of a spawn do with its span, the attributes at hand.
unfoldable pub close_spawn :
    Str
    → SubagentSpawnState
    → (name : Str) → SpanStatusCode × Option Str
    → AttributeMap
    → ℕ
    → SubagentTelemetrySession
    → SubagentTelemetrySession
unfolding record_subagent_spawn_duration
close_spawn spawn_id state name status attributes now s =
    let timed = record_subagent_spawn_duration spawn_id state now s in
    let described = emit (event_added state.span name attributes) (
      emit (status_set state.span status.0 status.1)
        (emit (attributes_set state.span attributes) timed)) in
    remove_spawn spawn_id (end_subagent_span state.span described)

unfoldable pub child_finished :
    Platform → Str → AgentTerminalStatus → SubagentTelemetrySession → SubagentTelemetrySession
unfolding record_child_failure_completion
child_finished p child status s = record_obs_agents_tree_state (
    record_child_failure_completion p child status
      (update_child_status child (child_status status) s))

unfoldable pub record_subagent_spawn_terminal :
    Platform
    → (spawn_id : Str) → SubagentSpawnState
    → (child_agent_id : Str) → AgentTerminalStatus
    → ℕ
    → SubagentTelemetrySession
    → SubagentTelemetrySession
unfolding child_finished close_spawn
record_subagent_spawn_terminal p spawn_id state child status now s =
    let finished = child_finished p child status s in
    let attributes =
      build_subagent_completion_attributes finished spawn_id child state.child_descriptor status
        state.spawn_reason in
    let name = terminal_spawn_event_name status in
    emit_subagent_log name attributes (terminal_severity status)
      (close_spawn spawn_id state name (terminal_spawn_status status) attributes now finished)

abbrev pub allows : Option AgentChildStatus → AgentChildStatus → Bool
allows none next = false
allows (some current) next = is_agent_status_transition_allowed current next

-- The failure where there is one.
unfoldable pub validate_spawn_child_transition :
    SubagentTelemetrySession
    → SubagentSpawnState
    → (child_agent_id : Str) → AgentTerminalStatus
    → SubagentTransitionResult
validate_spawn_child_transition s state child status =
    if not (child == state.child_agent_id)
    then failure child_agent_mismatch
    else if not (allows (current_status child s) (child_status status))
    then failure invalid_terminal_transition
    else success

unfoldable pub validate_launcher_failure_transition :
    SubagentTelemetrySession
    → SubagentSpawnState
    → (child_agent_id : Str) → SubagentTransitionResult
validate_launcher_failure_transition s state child =
    if not (child == state.child_agent_id)
    then failure child_agent_mismatch
    else if not (is_starting (current_status child s))
    then failure invalid_terminal_transition
    else success

-- The status and the outcome that the caller gives come from other programs as any strings.
pub record CompleteSubagentSpawnOptions : Type 0 where
  pub child_agent_id : Option Str
  pub requested_status : Option Str
  pub outcome : Option Str

abbrev pub conflicting : Option Str → Option Str → Bool
conflicting (some status) (some outcome) = not (status == outcome)
conflicting _ _ = false

abbrev pub requested : CompleteSubagentSpawnOptions → Str
requested o = or_default o.requested_status (or_default o.outcome (lit "completed"))

pub data CompletionTransitionResult : Type 0 where
  refused : SubagentTransitionResult → CompletionTransitionResult
  resolved : (child_agent_id : Str) → AgentTerminalStatus → CompletionTransitionResult

abbrev pub validated :
    Str → AgentTerminalStatus → SubagentTransitionResult → CompletionTransitionResult
validated child status success = resolved child status
validated child status (failure reason) = refused (failure reason)

unfoldable pub resolve_status :
    SubagentTelemetrySession
    → SubagentSpawnState
    → CompleteSubagentSpawnOptions
    → Option AgentTerminalStatus
    → CompletionTransitionResult
unfolding validate_spawn_child_transition
resolve_status s state o none = refused (failure invalid_terminal_transition)
resolve_status s state o (some status) =
    let child = or_default o.child_agent_id state.child_agent_id in
    if conflicting o.requested_status o.outcome
    then refused (failure invalid_terminal_transition)
    else validated child status (validate_spawn_child_transition s state child status)

unfoldable pub resolve_completion_transition :
    SubagentTelemetrySession
    → SubagentSpawnState
    → CompleteSubagentSpawnOptions
    → CompletionTransitionResult
unfolding is_agent_terminal_status resolve_status
resolve_completion_transition s state o =
    resolve_status s state o (is_agent_terminal_status (requested o))

unfoldable pub complete_resolved :
    Platform
    → Str
    → SubagentSpawnState
    → ℕ
    → SubagentTelemetrySession
    → CompletionTransitionResult
    → Transition
unfolding record_subagent_spawn_terminal
complete_resolved p spawn_id state now s (refused result) = (result, s)
complete_resolved p spawn_id state now s (resolved child status) =
    (success, record_subagent_spawn_terminal p spawn_id state child status now s)

unfoldable pub complete_subagent_spawn :
    Platform → Str → CompleteSubagentSpawnOptions → ℕ → SubagentTelemetrySession → Transition
unfolding complete_resolved resolve_completion_transition
complete_subagent_spawn p spawn_id o now s = elim (get spawn_id s.active_subagent_spawns) [
  | none ↦ (failure spawn_not_found, s)
  | some state ↦ complete_resolved p spawn_id state now s (resolve_completion_transition s state o)
]

abbrev pub failure_class : Platform → Option Str → Str
failure_class p error_class =
    normalize_metric_label p (or_default error_class (lit "subagent_spawn_error"))
      (lit "subagent_spawn_error")

unfoldable pub record_launch_failure :
    Platform
    → Str
    → SubagentSpawnState
    → (child_agent_id : Str) → (error_class : Option Str) → ℕ
    → SubagentTelemetrySession
    → SubagentTelemetrySession
unfolding close_spawn
record_launch_failure p spawn_id state child error_class now s =
    let updated = record_obs_agents_tree_state (update_child_status child Status.failed s) in
    let attributes = put (lit "error.type") (text (failure_class p error_class)) (
      build_subagent_completion_attributes updated spawn_id child state.child_descriptor failed
        state.spawn_reason) in
    let name = lit "agent.spawn.failed" in
    emit_subagent_log name attributes severity_error (
      emit
        (counted subagent_spawn_failures (subagent_failure_metric_labels state.labels attributes))
        (close_spawn spawn_id state name (status_error, some (failure_class p error_class))
          attributes now updated))

unfoldable pub fail_validated :
    Platform
    → Str
    → SubagentSpawnState
    → Str
    → Option Str
    → ℕ
    → SubagentTelemetrySession
    → SubagentTransitionResult
    → Transition
unfolding record_launch_failure
fail_validated p spawn_id state child error_class now s success =
    (success, record_launch_failure p spawn_id state child error_class now s)
fail_validated p spawn_id state child error_class now s (failure reason) = (failure reason, s)

unfoldable pub fail_subagent_spawn :
    Platform
    → Str
    → (child_agent_id error_class : Option Str) → ℕ
    → SubagentTelemetrySession
    → Transition
unfolding fail_validated validate_launcher_failure_transition
fail_subagent_spawn p spawn_id child error_class now s =
    elim (get spawn_id s.active_subagent_spawns) [
      | none ↦ (failure spawn_not_found, s)
      | some state ↦
          let id = or_default child state.child_agent_id in
          fail_validated p spawn_id state id error_class now s
            (validate_launcher_failure_transition s state id)
    ]
