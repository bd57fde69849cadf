-- ===== src/Pi/Subagent/Spans.antt =====
-- src/pi/subagent-spawn.ts, src/pi/handler-internals.ts: the spans of a session and what it emits
-- besides them.
use observ_me.Prelude.{
  ℕ, ◌+◌, nat_eq, true, false, Option, none, some, [], ◌∷◌, ◌++◌, Str, lit, str_equality,
  if◌then◌else◌, or_default, or_else,
}
use observ_me.Prelude.JsNumber.{whole}
use observ_me.Util.JsMap.{JsMap, get, has, put, put_all, delete}
use observ_me.Util.BoundedMap.{Observer}
use observ_me.Commands.AgentsRuntime.{
  ObsAgentWaitJoinHint, record_obs_agent_wait_join_hint, update_obs_agents_runtime_state_from_tree,
}
use observ_me.Pi.Lineage.{truthy}
use observ_me.Pi.AgentTree.{Summary, tree_width, update_status}
use observ_me.Pi.AgentTree.Status.{AgentChildStatus}
use observ_me.Pi.TerminalOutcome.{status_error}
use observ_me.Pi.Subagent.Types.{
  SubagentTelemetrySession, SubagentSpawnState, AgentWaitJoinState, AttributeMap, text, flag,
  Labels, Effect, span_started, attributes_set, status_set, span_ended, active_span_added,
  active_span_removed, recorded, logged, telemetry_dropped, agent_fanout_count, agent_tree_depth,
  agent_tree_width, Severity,
}
use observ_me.Pi.Subagent.Labels.{resolve_current_session_id, wait_reason_name}

abbrev pub emit : Effect → SubagentTelemetrySession → SubagentTelemetrySession
emit effect s = record s { effects = s.effects ++ effect ∷ [] }

-- The operations that the callers name are their own normalized values.
unfoldable pub record_active_span_start :
    ℕ → Str → SubagentTelemetrySession → SubagentTelemetrySession
record_active_span_start span operation s =
    if has span s.active_span_operations
    then s
    else emit (active_span_added operation)
        (record s { active_span_operations = put span operation s.active_span_operations })

abbrev pub end_operation : ℕ → Option Str → SubagentTelemetrySession → SubagentTelemetrySession
end_operation span none s = s
end_operation span (some operation) s =
    emit (active_span_removed operation)
      (record s { active_span_operations = delete span s.active_span_operations })

unfoldable pub record_active_span_end : ℕ → SubagentTelemetrySession → SubagentTelemetrySession
record_active_span_end span s = end_operation span (truthy (get span s.active_span_operations)) s

unfoldable pub end_subagent_span : ℕ → SubagentTelemetrySession → SubagentTelemetrySession
unfolding record_active_span_end
end_subagent_span span s = emit (span_ended span) (record_active_span_end span s)

unfoldable pub start_active_subagent_span :
    Str → Option ℕ → AttributeMap → Str → SubagentTelemetrySession → ℕ × SubagentTelemetrySession
unfolding record_active_span_start
start_active_subagent_span name parent attributes operation s =
    let started =
      emit (span_started s.next_span name parent attributes)
        (record s { next_span = s.next_span + 1 }) in
    (s.next_span, record_active_span_start s.next_span operation started)

abbrev pub span_or_session : Option Str → JsMap Str ℕ → SubagentTelemetrySession → Option (Option ℕ)
span_or_session none spans s = none
span_or_session (some id) spans s = some (or_else (get id spans) s.session_span)

unfoldable pub resolve_subagent_parent_span : SubagentTelemetrySession → Option ℕ
resolve_subagent_parent_span s =
    or_default
      (or_else (span_or_session (truthy s.current_turn_id) s.active_turns s)
        (span_or_session (truthy s.current_agent_run_id) s.active_agent_runs s))
      s.session_span

-- `emitSubagentLog`: the attributes given override the two of every record.
unfoldable pub emit_subagent_log :
    Str → AttributeMap → Severity → SubagentTelemetrySession → SubagentTelemetrySession
emit_subagent_log name attributes severity s =
    emit
      (logged severity name (
        put_all attributes
          ((lit "event.name", text name) ∷ (lit "event.category", text (lit "agent-tree")) ∷ [])))
      s

unfoldable pub update_child_status :
    Str → AgentChildStatus → SubagentTelemetrySession → SubagentTelemetrySession
update_child_status child status s = record s {
  agent_tree = (update_status s.agent_tree child status).0;
}

unfoldable pub record_obs_agents_tree_state : SubagentTelemetrySession → SubagentTelemetrySession
record_obs_agents_tree_state s = record s {
  runtime =
      update_obs_agents_runtime_state_from_tree s.lineage s.agent_tree
        (some (resolve_current_session_id s)) none s.runtime;
}

unfoldable pub record_agent_tree_metrics :
    Summary → Labels → SubagentTelemetrySession → SubagentTelemetrySession
record_agent_tree_metrics summary labels s =
    emit (recorded agent_tree_width (whole (tree_width summary)) labels) (
      emit (recorded agent_tree_depth (whole summary.tree_depth) labels)
        (emit (recorded agent_fanout_count (whole summary.fanout_count) labels) s))

unfoldable pub evict_span : ℕ → SubagentTelemetrySession → SubagentTelemetrySession
unfolding record_active_span_end
evict_span span s =
    let operation = or_default (get span s.active_span_operations) (lit "span_registry") in
    let marked =
      emit (status_set span status_error (some (lit "span_registry_full")))
        (emit (attributes_set span ((lit "observme.evicted", flag true) ∷ [])) s) in
    emit (telemetry_dropped (lit "span_registry_full") operation)
      (emit (span_ended span) (record_active_span_end span marked))

-- The callbacks of the registries; their state is the session.
unfoldable pub evict_subagent_spawn_state : Observer Str SubagentSpawnState SubagentTelemetrySession
unfolding evict_span
evict_subagent_spawn_state eviction s registry = (evict_span eviction.value.span s, registry)

abbrev pub eviction_hint : AgentWaitJoinState → ObsAgentWaitJoinHint
eviction_hint state = record {
  kind = state.kind;
  id = state.id;
  active = false;
  spawn_id = state.spawn_id;
  child_agent_id = state.child_agent_id;
  child_status = state.child_status;
  join_status = some (lit "unknown");
  reason = some (wait_reason_name state.reason);
  duration_ms = none;
}

abbrev pub record_hint : ObsAgentWaitJoinHint → SubagentTelemetrySession → SubagentTelemetrySession
record_hint hint s = record s { runtime = record_obs_agent_wait_join_hint hint s.runtime }

unfoldable pub evict_wait_join_state : Observer Str AgentWaitJoinState SubagentTelemetrySession
unfolding evict_span
evict_wait_join_state eviction s registry =
    (record_hint (eviction_hint eviction.value) (evict_span eviction.value.span s), registry)
