-- ===== src/Pi/Subagent/Start.antt =====
-- src/pi/subagent-spawn.ts: how a session starts a child, learns of one and gives all of them up.
use observ_me.Prelude.{
  ℕ, ◌+◌, max, Bool, false, Option, none, some, List, [], ◌∷◌, ◌++◌, Str, lit, str_equality,
  if◌then◌else◌, or_default,
}
use observ_me.Util.JsMap.{JsMap, put_all}
use observ_me.Util.BoundedMap
use observ_me.Commands.AgentsRuntime.{AgentWaitJoinKind, wait, join}
use observ_me.Pi.Lineage.{AgentLineageContext, AgentRole, child, subagent, ChildDescriptor}
use observ_me.Pi.AgentTree.{AgentTree, register_agent}
use observ_me.Pi.AgentTree.Status.{starting, active}
use observ_me.Pi.Propagation.{
  Env, ChildIdentityPropagation, v1, v2, validate_child_identity_propagation,
}
use observ_me.Pi.Subagent.Types.{
  SubagentTelemetrySession, SubagentSpawnState, AgentWaitJoinState, SubagentSpawnReason, cancelled,
  AttributeMap, text, count, flag, subagents_spawned, trace_context_propagation_failures, counted,
  attributes_set, event_added, severity_info, severity_error, Platform, SpanContext,
}
use observ_me.Pi.Subagent.Labels.{
  normalize_spawn_reason, subagent_spawn_metric_labels, trace_context_failure_metric_labels,
  resolve_current_session_id,
}
use observ_me.Pi.Subagent.Spans.{
  emit, emit_subagent_log, record_obs_agents_tree_state, record_agent_tree_metrics,
  start_active_subagent_span, resolve_subagent_parent_span, evict_subagent_spawn_state,
}
use observ_me.Pi.Subagent.Attributes.{
  build_subagent_spawn_attributes, own_summary, without_undefined_attributes, text_of,
}
use observ_me.Pi.Subagent.Environment.{
  SubagentPropagationEnvironment, build_subagent_propagation_environment,
}
use observ_me.Pi.Subagent.Spawn.{record_subagent_spawn_terminal}
use observ_me.Pi.Subagent.WaitJoin.{cancel_active_wait_join, create_bounded_lifecycle_identifier}

pub record StartSubagentSpawnOptions : Type 0 where
  pub spawn_id : Option Str
  pub child_identity : Option ChildIdentityPropagation
  pub command : Option Str
  pub args : Option (List Str)
  pub child_agent_id : Option Str
  pub spawn_type : Option Str
  pub spawn_reason : Option Str
  pub tool_call_id : Option Str
  pub env : Option Env

pub record StartedSubagentSpawn : Type 0 where
  pub spawn_id : Str
  pub child_agent_id : Str
  pub env : Env
  pub span : ℕ
  pub trace_context_propagated : Bool
  pub attributes : AttributeMap

-- The spawn's id and the child's.
unfoldable pub resolve_subagent_spawn_identity :
    Platform → (spawn_id child_agent_id : Option Str) → Str × Str
unfolding create_bounded_lifecycle_identifier
resolve_subagent_spawn_identity p spawn_id child_agent_id =
    let id = or_default spawn_id (lit "spawn-" ++ p.random_uuid) in
    (id, or_default child_agent_id (create_bounded_lifecycle_identifier p (lit "child") id))

abbrev pub descriptor_role : Option ChildDescriptor → AgentRole
descriptor_role none = subagent
descriptor_role (some d) = child d.role

abbrev pub descriptor_name : Option ChildDescriptor → Option Str
descriptor_name none = none
descriptor_name (some d) = some d.display_name

abbrev pub descriptor_capability : Option ChildDescriptor → Option Str
descriptor_capability none = none
descriptor_capability (some d) = some d.capability

unfoldable pub create_synthetic_child_lineage :
    SubagentTelemetrySession → Str → Option ChildDescriptor → AgentLineageContext
create_synthetic_child_lineage s child_agent_id descriptor = record {
  workflow_id = s.lineage.workflow_id;
  workflow_root_agent_id = s.lineage.workflow_root_agent_id;
  agent_id = child_agent_id;
  parent_agent_id = some s.lineage.agent_id;
  root_agent_id = s.lineage.root_agent_id;
  depth = s.lineage.depth + 1;
  role = descriptor_role descriptor;
  display_name = descriptor_name descriptor;
  capability = descriptor_capability descriptor;
  parent_session_id = some (resolve_current_session_id s);
  parent_trace_id = s.lineage.parent_trace_id;
  parent_span_id = s.lineage.parent_span_id;
  spawn_id = none;
  propagated_trace_context = none;
  propagation_failure = none;
  orphaned = false;
}

-- `ensureAgentTree` where there is no tree yet.
unfoldable pub ensure_agent_tree :
    AgentLineageContext → (max_active_subagent_spawns : ℕ) → AgentTree
ensure_agent_tree lineage max_spawns =
    let empty : AgentTree = record { max_agents = max 2 (max_spawns + 1); nodes = [] } in
    (register_agent empty lineage active none).tree

unfoldable pub record_agent_tree_spawn :
    Str → Option ChildDescriptor → SubagentTelemetrySession → SubagentTelemetrySession
unfolding create_synthetic_child_lineage
record_agent_tree_spawn child_agent_id descriptor s =
    let lineage = create_synthetic_child_lineage s child_agent_id descriptor in
    record s { agent_tree = (register_agent s.agent_tree lineage starting descriptor).tree }

unfoldable pub set_subagent_spawn_state :
    Str → SubagentSpawnState → SubagentTelemetrySession → SubagentTelemetrySession
set_subagent_spawn_state spawn_id state s =
    let (evicted, m) =
      BoundedMap.set s.max_active_subagent_spawns evict_subagent_spawn_state spawn_id state s
        s.active_subagent_spawns in
    record evicted { active_subagent_spawns = m }

unfoldable pub record_trace_context_fallback_when_missing :
    ℕ → Str → SubagentPropagationEnvironment → SubagentTelemetrySession → SubagentTelemetrySession
record_trace_context_fallback_when_missing span spawn_id propagation s =
    let name = lit "trace_context.propagation_failed" in
    let attributes = without_undefined_attributes (
      (lit "event.name", some (text name))
      ∷ (lit "event.category", some (text (lit "agent-tree")))
      ∷ (lit "pi.workflow.id", some (text s.lineage.workflow_id))
      ∷ (lit "pi.agent.id", some (text s.lineage.agent_id))
      ∷ (lit "pi.agent.root_id", some (text s.lineage.root_agent_id))
      ∷ (lit "pi.agent.spawn.id", some (text spawn_id))
      ∷ (lit "trace_id", text_of propagation.parent_trace_id)
      ∷ (lit "span_id", text_of propagation.parent_span_id)
      ∷ []) in
    if propagation.trace_context_propagated
    then s
    else emit_subagent_log name attributes severity_error (
        emit (event_added span name attributes) (
          emit (counted trace_context_propagation_failures (trace_context_failure_metric_labels s))
            s))

abbrev pub descriptor_of : ChildIdentityPropagation → Option ChildDescriptor
descriptor_of v1 = none
descriptor_of (v2 d) = some d

abbrev pub Started : Type 0
Started = StartedSubagentSpawn × SubagentTelemetrySession

-- What follows once the child's environment is built.
unfoldable pub register_spawn :
    StartSubagentSpawnOptions
    → (spawn_id child_agent_id : Str) → Option ChildDescriptor
    → SubagentSpawnReason
    → AttributeMap
    → (span now : ℕ) → SubagentTelemetrySession
    → SubagentPropagationEnvironment
    → Started
unfolding record_agent_tree_spawn set_subagent_spawn_state
    record_trace_context_fallback_when_missing
register_spawn o spawn_id child_agent_id descriptor reason initial span now s propagation =
    let labels = subagent_spawn_metric_labels s o.spawn_type reason in
    let grown = record_agent_tree_spawn child_agent_id descriptor s in
    let summary = own_summary grown in
    let attributes =
      put_all
        ((lit "pi.agent.spawn.trace_context_propagated", flag propagation.trace_context_propagated)
          ∷ (lit "pi.agent.children.active", count summary.active_children)
          ∷ (lit "pi.agent.child.count", count summary.fanout_count)
          ∷ [])
        initial in
    let state : SubagentSpawnState = record {
      span = span;
      child_agent_id = child_agent_id;
      child_descriptor = descriptor;
      started_at_ms = now;
      launcher_completed = false;
      labels = labels;
      spawn_reason = reason;
      trace_context_propagated = propagation.trace_context_propagated;
    } in
    let registered =
      set_subagent_spawn_state spawn_id state (emit (attributes_set span attributes) grown) in
    let measured =
      record_agent_tree_metrics summary labels
        (emit (counted subagents_spawned labels) registered) in
    let logged = emit_subagent_log (lit "agent.spawn.started") attributes severity_info (
      emit (event_added span (lit "agent.spawn.started") attributes)
        (record_obs_agents_tree_state measured)) in
    (
      record {
        spawn_id = spawn_id;
        child_agent_id = child_agent_id;
        env = propagation.env;
        span = span;
        trace_context_propagated = propagation.trace_context_propagated;
        attributes = attributes;
      },
      record_trace_context_fallback_when_missing span spawn_id propagation logged,
    )

-- The context that `readSpanContext` lets through.
abbrev pub valid_context : Platform → Option SpanContext → Option SpanContext
valid_context p none = none
valid_context p (some c) = if p.is_span_context_valid c then some c else none

abbrev pub map_started :
    (SubagentPropagationEnvironment → Started)
    → Option SubagentPropagationEnvironment
    → Option Started
map_started f none = none
map_started f (some propagation) = some (f propagation)

unfoldable pub start_valid :
    Platform
    → StartSubagentSpawnOptions
    → ℕ
    → SubagentTelemetrySession
    → ChildIdentityPropagation
    → Option Started
unfolding resolve_subagent_spawn_identity register_spawn
start_valid p o now s identity =
    let (spawn_id, child_agent_id) =
      resolve_subagent_spawn_identity p o.spawn_id o.child_agent_id in
    let descriptor = descriptor_of identity in
    let reason = normalize_spawn_reason o.spawn_reason in
    let initial =
      build_subagent_spawn_attributes p s spawn_id child_agent_id descriptor o.spawn_type
        o.tool_call_id o.command o.args reason in
    let (span, started) =
      start_active_subagent_span (lit "pi.agent.spawn") (resolve_subagent_parent_span s) initial
        (lit "subagent_spawn") s in
    map_started
      (register_spawn o spawn_id child_agent_id descriptor reason initial span now started)
      (build_subagent_propagation_environment p s.workflow s.agent s.lineage identity spawn_id
        (some (resolve_current_session_id s)) (valid_context p (p.span_context span))
        (or_default o.env p.process_env))

unfoldable pub start_checked :
    Platform
    → StartSubagentSpawnOptions
    → ℕ
    → SubagentTelemetrySession
    → Option ChildIdentityPropagation
    → Option Started
unfolding start_valid
start_checked p o now s none = none
start_checked p o now s (some identity) = start_valid p o now s identity

-- None where the identity is invalid and the code throws.
unfoldable pub start_subagent_spawn :
    Platform → StartSubagentSpawnOptions → ℕ → SubagentTelemetrySession → Option Started
unfolding start_checked
start_subagent_spawn p o now s =
    start_checked p o now s (validate_child_identity_propagation (or_default o.child_identity v1))

-- The loops over the registries: a round deletes the entry that it is at, and no other.
unfoldable pub interrupt_spawns :
    Platform
    → ℕ
    → JsMap Str SubagentSpawnState
    → SubagentTelemetrySession
    → SubagentTelemetrySession
unfolding record_subagent_spawn_terminal
interrupt_spawns p now [] s = s
interrupt_spawns p now ((spawn_id, state) ∷ spawns) s =
    interrupt_spawns p now spawns
      (record_subagent_spawn_terminal p spawn_id state state.child_agent_id cancelled now s)

unfoldable pub interrupt_wait_joins :
    Platform
    → AgentWaitJoinKind
    → ℕ
    → JsMap Str AgentWaitJoinState
    → SubagentTelemetrySession
    → SubagentTelemetrySession
unfolding cancel_active_wait_join
interrupt_wait_joins p kind now [] s = s
interrupt_wait_joins p kind now ((id, state) ∷ states) s =
    interrupt_wait_joins p kind now states (cancel_active_wait_join p id state kind now s)

unfoldable pub interrupt_active_subagent_operations :
    Platform → ℕ → SubagentTelemetrySession → SubagentTelemetrySession
unfolding interrupt_spawns interrupt_wait_joins
interrupt_active_subagent_operations p now s =
    let s1 = interrupt_spawns p now s.active_subagent_spawns s in
    let s2 = interrupt_wait_joins p wait now s1.active_agent_waits s1 in
    interrupt_wait_joins p join now s2.active_agent_joins s2
