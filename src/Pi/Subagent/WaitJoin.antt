-- ===== src/Pi/Subagent/WaitJoin.antt =====
-- src/pi/subagent-spawn.ts: how a session waits for a child and joins it.
use observ_me.Prelude.{
  ℕ, ◌-◌, ◌==◌, Bool, true, false, not, ◌&&◌, ◌||◌, Option, none, some, ◌++◌, Str, lit,
  str_equality, bool_eq, leb, if◌then◌else◌, or_default, or_else, length,
}
use observ_me.Prelude.JsNumber.{JsNumber, whole, nan, infinity, finite}
use observ_me.Util.JsMap.{JsMap, get, delete}
use observ_me.Util.BoundedMap
use observ_me.Commands.AgentsRuntime.{
  AgentWaitJoinKind, wait, join, same_kind, ObsAgentWaitJoinHint,
}
use observ_me.Pi.Lineage.{truthy}
use observ_me.Pi.AgentTree.Status.{
  AgentChildStatus, active, completed, failed, cancelled, orphaned, status_eq,
  is_agent_status_transition_allowed,
}
use observ_me.Pi.TerminalOutcome.{status_error}
use observ_me.Pi.Subagent.Types.{
  SubagentTelemetrySession, SubagentSpawnState, AgentWaitJoinState, AgentWaitReason,
  AgentJoinStatus, join_completed, join_failed, join_cancelled, SubagentTransitionResult, success,
  failure, spawn_not_found, child_agent_mismatch, invalid_terminal_transition, Labels, AttributeMap,
  SubagentHistogram, agent_wait_duration_ms, agent_join_duration_ms, recorded, attributes_set,
  status_set, event_added, Severity, severity_info, severity_error, Platform,
}
use observ_me.Pi.Subagent.Labels.{
  normalize_wait_reason, wait_reason_name, join_status_name, child_status_name, is_status,
  wait_join_metric_labels,
}
use observ_me.Pi.Subagent.Spans.{
  emit, end_subagent_span, emit_subagent_log, update_child_status, record_obs_agents_tree_state,
  record_hint, start_active_subagent_span, resolve_subagent_parent_span, evict_wait_join_state,
}
use observ_me.Pi.Subagent.Attributes.{build_wait_join_attributes}
use observ_me.Pi.Subagent.Spawn.{Transition, current_status, is_starting, account_child_failure}

-- A `reason` of undefined is none; another value comes as its string.
pub record AgentWaitJoinOptions : Type 0 where
  pub id : Option Str
  pub spawn_id : Option Str
  pub child_agent_id : Option Str
  pub child_status : Option AgentChildStatus
  pub join_status : Option AgentJoinStatus
  pub reason : Option Str
  pub failure_propagated : Option Bool
  pub duration_ms : Option JsNumber

abbrev pub identifier_max_characters : ℕ
identifier_max_characters = 128

unfoldable pub create_bounded_lifecycle_identifier : Platform → (prefix source : Str) → Str
create_bounded_lifecycle_identifier p prefix source =
    let derived = prefix ++ lit "-" ++ source in
    if leb (length derived) identifier_max_characters
    then derived
    else prefix ++ lit "-" ++ p.sha256_hex source

abbrev pub kind_name : AgentWaitJoinKind → Str
kind_name wait = lit "wait"
kind_name join = lit "join"

unfoldable pub resolve_agent_wait_join_id :
    Platform → AgentWaitJoinOptions → AgentWaitJoinKind → Str
unfolding create_bounded_lifecycle_identifier
resolve_agent_wait_join_id p o kind =
    or_default o.id
      (create_bounded_lifecycle_identifier p (kind_name kind) (or_default o.spawn_id p.random_uuid))

abbrev pub span_name : AgentWaitJoinKind → Str
span_name wait = lit "pi.agent.wait"
span_name join = lit "pi.agent.join"

abbrev pub started_event : AgentWaitJoinKind → Str
started_event wait = lit "agent.wait.started"
started_event join = lit "agent.join.started"

abbrev pub completed_event : AgentWaitJoinKind → Str
completed_event wait = lit "agent.wait.completed"
completed_event join = lit "agent.join.completed"

abbrev pub operation_name : AgentWaitJoinKind → Str
operation_name wait = lit "agent_wait"
operation_name join = lit "agent_join"

unfoldable pub wait_join_registry :
    AgentWaitJoinKind → SubagentTelemetrySession → JsMap Str AgentWaitJoinState
wait_join_registry wait s = s.active_agent_waits
wait_join_registry join s = s.active_agent_joins

abbrev pub set_registry :
    AgentWaitJoinKind
    → JsMap Str AgentWaitJoinState
    → SubagentTelemetrySession
    → SubagentTelemetrySession
set_registry wait m s = record s { active_agent_waits = m }
set_registry join m s = record s { active_agent_joins = m }

abbrev pub registry_size : AgentWaitJoinKind → SubagentTelemetrySession → ℕ
registry_size wait s = s.max_active_agent_waits
registry_size join s = s.max_active_agent_joins

-- `waitJoinRegistry(session, kind).set(id, state)`
unfoldable pub set_wait_join_state :
    AgentWaitJoinKind
    → Str
    → AgentWaitJoinState
    → SubagentTelemetrySession
    → SubagentTelemetrySession
unfolding wait_join_registry
set_wait_join_state kind id state s =
    let (evicted, m) =
      BoundedMap.set (registry_size kind s) evict_wait_join_state id state s
        (wait_join_registry kind s) in
    set_registry kind m evicted

abbrev pub activate : Str → SubagentTelemetrySession → SubagentTelemetrySession
activate child s =
    if is_starting (current_status child s)
    then record_obs_agents_tree_state (update_child_status child active s)
    else s

abbrev pub activate_if :
    Option Str → Option AgentChildStatus → SubagentTelemetrySession → SubagentTelemetrySession
activate_if none status s = s
activate_if (some child) status s = if is_status active status then activate child s else s

unfoldable pub activate_starting_wait_join_child :
    AgentWaitJoinState → SubagentTelemetrySession → SubagentTelemetrySession
activate_starting_wait_join_child state s =
    activate_if (truthy state.child_agent_id) state.child_status s

abbrev pub join_name : Option AgentJoinStatus → Option Str
join_name none = none
join_name (some joined) = some (join_status_name joined)

unfoldable pub create_wait_join_runtime_hint :
    AgentWaitJoinState → AgentWaitJoinOptions → Bool → Option JsNumber → ObsAgentWaitJoinHint
create_wait_join_runtime_hint state o is_active duration = record {
  kind = state.kind;
  id = state.id;
  active = is_active;
  spawn_id = state.spawn_id;
  child_agent_id = state.child_agent_id;
  child_status = or_else o.child_status state.child_status;
  join_status = join_name (or_else o.join_status state.join_status);
  reason = some (wait_reason_name state.reason);
  duration_ms = duration;
}

abbrev pub attributes_of :
    SubagentTelemetrySession → AgentWaitJoinOptions → AgentWaitReason → AttributeMap
attributes_of s o reason =
    build_wait_join_attributes s o.child_agent_id o.spawn_id reason o.join_status o.child_status
      o.failure_propagated

pub record StartedAgentWaitJoin : Type 0 where
  pub id : Str
  pub span : ℕ
  pub attributes : AttributeMap

abbrev pub state_of :
    Str
    → ℕ
    → ℕ
    → Labels
    → AgentWaitReason
    → AgentWaitJoinOptions
    → AgentWaitJoinKind
    → AgentWaitJoinState
state_of id span now labels reason o kind = record {
  id = id;
  kind = kind;
  span = span;
  started_at_ms = now;
  labels = labels;
  reason = reason;
  spawn_id = o.spawn_id;
  child_agent_id = o.child_agent_id;
  child_status = o.child_status;
  join_status = o.join_status;
  failure_propagated = o.failure_propagated;
}

unfoldable pub start_wait_join_span :
    Platform
    → AgentWaitJoinOptions
    → AgentWaitJoinKind
    → ℕ
    → SubagentTelemetrySession
    → StartedAgentWaitJoin × SubagentTelemetrySession
unfolding resolve_agent_wait_join_id normalize_wait_reason start_active_subagent_span
    set_wait_join_state activate_starting_wait_join_child create_wait_join_runtime_hint
start_wait_join_span p o kind now s =
    let id = resolve_agent_wait_join_id p o kind in
    let reason = normalize_wait_reason o.reason o.child_status o.join_status kind in
    let attributes = attributes_of s o reason in
    let (span, started) =
      start_active_subagent_span (span_name kind) (resolve_subagent_parent_span s) attributes
        (operation_name kind) s in
    let labels = wait_join_metric_labels s o.join_status o.child_status reason in
    let state = state_of id span now labels reason o kind in
    let registered =
      activate_starting_wait_join_child state (set_wait_join_state kind id state started) in
    let hinted = record_hint (create_wait_join_runtime_hint state o true none) registered in
    (
      record { id = id; span = span; attributes = attributes },
      emit_subagent_log (started_event kind) attributes severity_info
          (emit (event_added span (started_event kind) attributes) hinted),
    )

-- Not given, or the same.
abbrev pub agrees : Option Str → Option Str → Bool
agrees none known = true
agrees (some value) none = false
agrees (some value) (some known) = value == known

unfoldable pub validate_wait_join_identity :
    AgentWaitJoinState → Str → AgentWaitJoinOptions → AgentWaitJoinKind → SubagentTransitionResult
validate_wait_join_identity state id o kind =
    if not (state.id == id) || not (same_kind state.kind kind)
    then failure spawn_not_found
    else if not (agrees o.id (some state.id))
    then failure child_agent_mismatch
    else if not (agrees o.spawn_id state.spawn_id)
    then failure child_agent_mismatch
    else if not (agrees o.child_agent_id state.child_agent_id)
    then failure child_agent_mismatch
    else success

unfoldable pub resolve_wait_join_completion_options :
    AgentWaitJoinState → AgentWaitJoinOptions → AgentWaitJoinOptions
resolve_wait_join_completion_options state o = record {
  id = some state.id;
  spawn_id = state.spawn_id;
  child_agent_id = state.child_agent_id;
  child_status = or_else o.child_status state.child_status;
  join_status = or_else o.join_status state.join_status;
  reason = some (wait_reason_name state.reason);
  failure_propagated = or_else o.failure_propagated state.failure_propagated;
  duration_ms = o.duration_ms;
}

-- The spawn named is live and has another child.
abbrev pub names_other_child : Option SubagentSpawnState → Str → Bool
names_other_child none child = false
names_other_child (some spawn) child = not (spawn.child_agent_id == child)

abbrev pub spawn_of : Option Str → SubagentTelemetrySession → Option SubagentSpawnState
spawn_of none s = none
spawn_of (some spawn_id) s = get spawn_id s.active_subagent_spawns

abbrev pub forbids : Option AgentChildStatus → AgentChildStatus → Bool
forbids none next = false
forbids (some current) next = not (is_agent_status_transition_allowed current next)

abbrev pub validate_child_and_status :
    SubagentTelemetrySession
    → AgentWaitJoinOptions
    → Option Str
    → Option AgentChildStatus
    → SubagentTransitionResult
validate_child_and_status s o (some child) (some status) =
    if names_other_child (spawn_of (truthy o.spawn_id) s) child
    then failure child_agent_mismatch
    else if forbids (current_status child s) status
    then failure invalid_terminal_transition
    else success
validate_child_and_status s o _ _ = success

unfoldable pub validate_wait_join_transition :
    SubagentTelemetrySession → AgentWaitJoinOptions → SubagentTransitionResult
validate_wait_join_transition s o =
    validate_child_and_status s o (truthy o.child_agent_id) o.child_status

-- Math.max(0, n)
abbrev pub not_negative : JsNumber → JsNumber
not_negative nan = nan
not_negative (infinity true) = whole 0
not_negative (infinity false) = infinity false
not_negative (finite true w f) = whole 0
not_negative (finite false w f) = finite false w f

unfoldable pub resolve_duration_ms : AgentWaitJoinState → Option JsNumber → ℕ → JsNumber
resolve_duration_ms state none now = whole (now - state.started_at_ms)
resolve_duration_ms state (some duration) now = not_negative duration

abbrev pub is_join : AgentJoinStatus → Option AgentJoinStatus → Bool
is_join join_completed (some join_completed) = true
is_join join_failed (some join_failed) = true
is_join join_cancelled (some join_cancelled) = true
is_join _ _ = false

abbrev pub is_true : Option Bool → Bool
is_true none = false
is_true (some b) = b

abbrev pub is_false : Option Bool → Bool
is_false none = false
is_false (some b) = not b

abbrev pub child_name : Option AgentChildStatus → Str
child_name none = lit "failed"
child_name (some status) = child_status_name status

unfoldable pub wait_join_error_status : AgentWaitJoinOptions → Option Str
wait_join_error_status o =
    if is_true o.failure_propagated
      || is_status failed o.child_status
      || is_join join_failed o.join_status
    then some (or_default (join_name o.join_status) (child_name o.child_status))
    else if is_status cancelled o.child_status || is_join join_cancelled o.join_status
    then some (lit "cancelled")
    else none

unfoldable pub record_child_join_accounting :
    Platform → AgentWaitJoinOptions → SubagentTelemetrySession → SubagentTelemetrySession
record_child_join_accounting p o s = elim (truthy o.child_agent_id) [
  | none ↦ s
  | some child ↦
      let confirmed = is_false o.failure_propagated && is_join join_completed o.join_status in
      if is_status failed o.child_status then account_child_failure p child confirmed s else s
]

unfoldable pub account_join :
    AgentWaitJoinKind
    → Platform
    → AgentWaitJoinOptions
    → SubagentTelemetrySession
    → SubagentTelemetrySession
unfolding record_child_join_accounting
account_join wait p o s = s
account_join join p o s = record_child_join_accounting p o s

abbrev pub duration_histogram : AgentWaitJoinKind → SubagentHistogram
duration_histogram wait = agent_wait_duration_ms
duration_histogram join = agent_join_duration_ms

abbrev pub update_child :
    Option Str → Option AgentChildStatus → SubagentTelemetrySession → SubagentTelemetrySession
update_child (some child) (some status) s = update_child_status child status s
update_child _ _ s = s

abbrev pub set_error_status : ℕ → Option Str → SubagentTelemetrySession → SubagentTelemetrySession
set_error_status span none s = s
set_error_status span (some message) s = emit (status_set span status_error (some message)) s

abbrev pub severity_of : Option Str → Severity
severity_of none = severity_info
severity_of (some message) = severity_error

unfoldable pub complete_wait_join_span :
    Platform
    → Str
    → AgentWaitJoinState
    → AgentWaitJoinOptions
    → AgentWaitJoinKind
    → ℕ
    → SubagentTelemetrySession
    → SubagentTelemetrySession
unfolding wait_join_registry create_wait_join_runtime_hint resolve_duration_ms
    wait_join_error_status account_join
complete_wait_join_span p id state o kind now s =
    let updated = update_child (truthy o.child_agent_id) o.child_status s in
    let attributes = attributes_of updated o state.reason in
    let duration = resolve_duration_ms state o.duration_ms now in
    let error_status = wait_join_error_status o in
    let described = emit (event_added state.span (completed_event kind) attributes) (
      set_error_status state.span error_status
        (emit (attributes_set state.span attributes) updated)) in
    let ended = end_subagent_span state.span described in
    let removed = set_registry kind (delete id (wait_join_registry kind ended)) ended in
    let published =
      record_obs_agents_tree_state
        (record_hint (create_wait_join_runtime_hint state o false (some duration)) removed) in
    let measured = emit (recorded (duration_histogram kind) duration state.labels) published in
    emit_subagent_log (completed_event kind) attributes (severity_of error_status)
      (account_join kind p o measured)

unfoldable pub end_validated :
    Platform
    → Str
    → AgentWaitJoinState
    → AgentWaitJoinOptions
    → AgentWaitJoinKind
    → ℕ
    → SubagentTelemetrySession
    → (identity transition : SubagentTransitionResult) → Transition
unfolding complete_wait_join_span
end_validated p id state o kind now s (failure reason) transition = (failure reason, s)
end_validated p id state o kind now s success (failure reason) = (failure reason, s)
end_validated p id state o kind now s success success =
    (success, complete_wait_join_span p id state o kind now s)

unfoldable pub end_wait_join_span :
    Platform
    → Str
    → AgentWaitJoinOptions
    → AgentWaitJoinKind
    → ℕ
    → SubagentTelemetrySession
    → Transition
unfolding wait_join_registry validate_wait_join_identity resolve_wait_join_completion_options
    validate_wait_join_transition end_validated
end_wait_join_span p id o kind now s = elim (get id (wait_join_registry kind s)) [
  | none ↦ (failure spawn_not_found, s)
  | some state ↦
      let completion = resolve_wait_join_completion_options state o in
      end_validated p id state completion kind now s (validate_wait_join_identity state id o kind)
        (validate_wait_join_transition s completion)
]

-- `recordAgentWait` and `recordAgentJoin`
unfoldable pub record_agent_wait_join :
    Platform
    → AgentWaitJoinOptions
    → AgentWaitJoinKind
    → ℕ
    → SubagentTelemetrySession
    → StartedAgentWaitJoin × SubagentTelemetrySession
unfolding start_wait_join_span end_wait_join_span
record_agent_wait_join p o kind now s =
    let (started, s1) = start_wait_join_span p o kind now s in
    (started, (end_wait_join_span p started.id o kind now s1).1)

-- A child that has ended keeps its status when the session is interrupted.
abbrev pub interrupted_status : Option AgentChildStatus → AgentChildStatus
interrupted_status (some completed) = completed
interrupted_status (some failed) = failed
interrupted_status (some orphaned) = orphaned
interrupted_status _ = cancelled

unfoldable pub resolve_interrupted_child_status :
    SubagentTelemetrySession → Option Str → AgentChildStatus
resolve_interrupted_child_status s child = elim (truthy child) [
  | none ↦ cancelled
  | some id ↦ interrupted_status (current_status id s)
]

unfoldable pub cancel_active_wait_join :
    Platform
    → Str
    → AgentWaitJoinState
    → AgentWaitJoinKind
    → ℕ
    → SubagentTelemetrySession
    → SubagentTelemetrySession
unfolding resolve_interrupted_child_status resolve_wait_join_completion_options
    complete_wait_join_span
cancel_active_wait_join p id state kind now s =
    let o : AgentWaitJoinOptions = record {
      id = none;
      spawn_id = none;
      child_agent_id = none;
      child_status = some (resolve_interrupted_child_status s state.child_agent_id);
      join_status = some join_cancelled;
      reason = none;
      failure_propagated = none;
      duration_ms = none;
    } in
    complete_wait_join_span p id state (resolve_wait_join_completion_options state o) kind now s
