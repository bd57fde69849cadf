-- ===== src/Pi/Subagent/Examples.antt =====
-- A session with one live spawn, one wait and one join.
use observ_me.Prelude.{
  ℕ, ◌+◌, ◌≤◌, ◌≡◌, refl, ◌⊎◌, inl, true, false, Option, none, some, List, [], ◌∷◌, Str, lit,
  length, is_some, str_equality, or_default,
}
use observ_me.Prelude.JsNumber.{whole}
use observ_me.Util.JsMap.{get}
use observ_me.Util.MembershipFilter.{Digest}
use observ_me.Config.Schema.{WorkflowConfig, AgentConfig}
use observ_me.Commands.AgentsRuntime.{wait, join, create_empty_obs_agents_runtime_state}
use observ_me.Pi.Lineage.{AgentLineageContext, root}
use observ_me.Pi.Propagation.{v1}
use observ_me.Pi.Subagent.Accounting.{new_ledger}
use observ_me.Pi.Subagent.Accounting.Once.{
  failures_counted, recoveries_counted, record_child_failure_accounting_once,
}
use observ_me.Pi.Subagent.Types.{
  SubagentSpawnState, AgentWaitJoinState, SubagentTelemetrySession, Platform, SpanContext, success,
  failed, delegated_task, child_running, spawn_not_found,
}
use observ_me.Pi.Subagent.Grandchild.{sanitize-build_subagent_propagation_environment}
use observ_me.Pi.Propagation.{sanitize_propagation_environment}
use observ_me.Pi.Subagent.Environment.{
  SubagentPropagationEnvironment, build_subagent_propagation_environment,
}
use observ_me.Pi.Subagent.Spawn.{complete_subagent_spawn}
use observ_me.Pi.Subagent.Completes.{ending, complete_subagent_spawn-running}
use observ_me.Pi.Subagent.Start.{
  record_agent_tree_spawn, ensure_agent_tree, interrupt_active_subagent_operations,
}
use observ_me.Pi.Subagent.Refused.{
  SpawnCall, launch_completed, spawn_completed, spawn_failed, on_spawn, end_call,
  end_call-Unchanged,
}
use observ_me.Pi.Subagent.Ended.{ends}
use observ_me.Pi.Subagent.EndsOnce.{run_calls, run_calls-ends_once}
use observ_me.Pi.Subagent.Interrupted.{interrupt_active_subagent_operations-empties}
use observ_me.Pi.Subagent.TraceContext.{
  Carries, build_subagent_propagation_environment-trace_context,
}

abbrev length_digest : Str → Digest
length_digest s = record { word_0 = length s; word_1 = 7; word_2 = length s; word_3 = 9 }

abbrev span_context : SpanContext
span_context = record {
  trace_id = lit "0af7651916cd43dd8448eb211c80319c";
  span_id = lit "b7ad6b7169203331";
  trace_flags = 1;
  tracestate = some (lit "a=b");
}

abbrev platform : Platform
platform = record {
  digest = length_digest;
  sha256_hex = λ s. s;
  try_sha256 = λ s. none;
  to_lower_case = λ s. s;
  random_uuid = lit "u";
  process_env = [];
  is_span_context_valid = λ c. true;
  span_context = λ n. some span_context;
}

abbrev workflow_names : WorkflowConfig
workflow_names = record {
  id_env = lit "WORKFLOW";
  enabled = true;
  max_depth_warning = whole 5;
  max_fanout_warning = whole 10;
}

abbrev agent_names : AgentConfig
agent_names = record {
  id_env = lit "AGENT";
  parent_id_env = lit "PARENT";
  root_id_env = lit "ROOT";
  parent_session_id_env = lit "SESSION";
  parent_trace_id_env = lit "TRACE";
  parent_span_id_env = lit "SPAN";
  depth_env = lit "DEPTH";
  spawn_id_env = lit "SPAWN";
  propagate_trace_context = true;
  propagate_to_subagents = true;
  child_identity_envelope_version_env = lit "VERSION";
  display_name_env = lit "NAME";
  role_env = lit "ROLE";
  capability_env = lit "CAPABILITY";
  write_correlation_entry = true;
}

abbrev own_lineage : AgentLineageContext
own_lineage = record {
  workflow_id = lit "w";
  workflow_root_agent_id = lit "a";
  agent_id = lit "a";
  parent_agent_id = none;
  root_agent_id = lit "a";
  depth = 0;
  role = root;
  display_name = none;
  capability = none;
  parent_session_id = none;
  parent_trace_id = none;
  parent_span_id = none;
  spawn_id = none;
  propagated_trace_context = none;
  propagation_failure = none;
  orphaned = false;
}

abbrev spawn_state : SubagentSpawnState
spawn_state = record {
  span = 0;
  child_agent_id = lit "b";
  child_descriptor = none;
  started_at_ms = 100;
  launcher_completed = false;
  labels = [];
  spawn_reason = delegated_task;
  trace_context_propagated = true;
}

abbrev wait_state : AgentWaitJoinState
wait_state = record {
  id = lit "x";
  kind = wait;
  span = 1;
  started_at_ms = 110;
  labels = [];
  reason = child_running;
  spawn_id = some (lit "s");
  child_agent_id = some (lit "b");
  child_status = none;
  join_status = none;
  failure_propagated = none;
}

abbrev session : SubagentTelemetrySession
session = record {
  lineage = own_lineage;
  workflow = workflow_names;
  agent = agent_names;
  max_depth_warning = 5;
  max_active_subagent_spawns = 2;
  max_active_agent_waits = 2;
  max_active_agent_joins = 2;
  session_span = none;
  session_attributes = none;
  current_agent_run_id = none;
  current_turn_id = none;
  active_agent_runs = [];
  active_turns = [];
  active_subagent_spawns = (lit "s", spawn_state) ∷ [];
  active_agent_waits = (lit "x", wait_state) ∷ [];
  active_agent_joins = (lit "y", record wait_state { id = lit "y"; kind = join; span = 2 }) ∷ [];
  agent_tree = ensure_agent_tree own_lineage 2;
  child_failures = new_ledger 2;
  active_span_operations = (0, lit "subagent_spawn") ∷ [];
  runtime = create_empty_obs_agents_runtime_state;
  next_span = 3;
  effects = [];
}

end_call-Unchanged_example :
    (end_call platform (lit "t") (on_spawn (launch_completed none)) 200 session).1 ≡ session
unfolding end_call observ_me.Pi.Subagent.Refused.spawn_call
    observ_me.Pi.Subagent.Spawn.complete_subagent_launch
end_call-Unchanged_example =
    end_call-Unchanged platform (lit "t") (on_spawn (launch_completed none)) 200 session
      spawn_not_found refl

abbrev calls : List (SpawnCall × ℕ)
calls =
    (launch_completed none, 200)
    ∷ (
      spawn_completed (record {
        child_agent_id = none;
        requested_status = some (lit "failed");
        outcome = none;
      }),
      300,
    )
    ∷ (spawn_failed none none, 400)
    ∷ []

run_calls-ends_once_example :
    ((live : SubagentSpawnState) × (get
          (lit "s")
          (run_calls platform (lit "s") calls session).active_subagent_spawns
        ≡ some live)
      × (ends 0 (run_calls platform (lit "s") calls session).effects ≡ 0))
    ⊎ ((get (lit "s") (run_calls platform (lit "s") calls session).active_subagent_spawns ≡ none)
        × (ends 0 (run_calls platform (lit "s") calls session).effects ≡ 0 + 1))
run_calls-ends_once_example = run_calls-ends_once platform (lit "s") calls session spawn_state refl

interrupt_active_subagent_operations-empties_example :
    ((interrupt_active_subagent_operations platform 500 session).active_subagent_spawns ≡ [])
    × ((interrupt_active_subagent_operations platform 500 session).active_agent_waits ≡ [])
    × ((interrupt_active_subagent_operations platform 500 session).active_agent_joins ≡ [])
interrupt_active_subagent_operations-empties_example =
    interrupt_active_subagent_operations-empties platform 500 session (refl, tt) (refl, tt)
      (refl, tt)

record_child_failure_accounting_once_example :
    (failures_counted length_digest 2
        (lit "b")
        ((lit "b", false) ∷ (lit "b", true) ∷ (lit "b", true) ∷ [])
        (new_ledger 2)
      ≤ 1)
    × (recoveries_counted length_digest 2
          (lit "b")
          ((lit "b", false) ∷ (lit "b", true) ∷ (lit "b", true) ∷ [])
          (new_ledger 2)
        ≤ 1)
record_child_failure_accounting_once_example =
    record_child_failure_accounting_once length_digest 2 (lit "b")
      ((lit "b", false) ∷ (lit "b", true) ∷ (lit "b", true) ∷ [])

-- The parent was started with a trace context of its own.
abbrev built : Option SubagentPropagationEnvironment
built =
    build_subagent_propagation_environment platform workflow_names agent_names own_lineage v1
      (lit "s") (some (lit "session-w")) (some span_context) ((lit "TRACEPARENT", lit "old") ∷ [])

abbrev child_environment : SubagentPropagationEnvironment
child_environment = or_default built (record {
  env = [];
  trace_context_propagated = false;
  traceparent = none;
  tracestate = none;
  parent_trace_id = none;
  parent_span_id = none;
})

build_subagent_propagation_environment-trace_context_example :
    Carries child_environment.env child_environment.traceparent child_environment.tracestate
    × (child_environment.trace_context_propagated ≡ is_some child_environment.traceparent)
unfolding build_subagent_propagation_environment observ_me.Pi.Subagent.Environment.with_parent
    observ_me.Pi.Subagent.Environment.build_traceparent
    observ_me.Pi.Subagent.Environment.serialize_trace_state
    observ_me.Pi.Subagent.Environment.sanitize_trace_context_environment
    observ_me.Pi.Propagation.create_propagation_environment
    observ_me.Pi.Propagation.sanitize_propagation_environment
    observ_me.Pi.Propagation.propagation_environment_keys
    observ_me.Pi.Propagation.build_child_identity_propagation_environment
    observ_me.Pi.Propagation.validate_child_identity_propagation
build_subagent_propagation_environment-trace_context_example =
    build_subagent_propagation_environment-trace_context platform workflow_names agent_names
      own_lineage v1 (lit "s") (some (lit "session-w")) (some span_context)
      ((lit "TRACEPARENT", lit "old") ∷ []) child_environment refl

sanitize-build_subagent_propagation_environment_example :
    get
      (lit "SPAWN")
      (sanitize_propagation_environment workflow_names agent_names child_environment.env)
    ≡ none
unfolding build_subagent_propagation_environment observ_me.Pi.Subagent.Environment.with_parent
    observ_me.Pi.Subagent.Environment.build_traceparent
    observ_me.Pi.Subagent.Environment.serialize_trace_state
    observ_me.Pi.Subagent.Environment.sanitize_trace_context_environment
    observ_me.Pi.Propagation.create_propagation_environment
    observ_me.Pi.Propagation.sanitize_propagation_environment
    observ_me.Pi.Propagation.propagation_environment_keys
    observ_me.Pi.Propagation.build_child_identity_propagation_environment
    observ_me.Pi.Propagation.validate_child_identity_propagation
sanitize-build_subagent_propagation_environment_example =
    sanitize-build_subagent_propagation_environment platform workflow_names agent_names own_lineage
      v1 (lit "s") (some (lit "session-w")) (some span_context)
      ((lit "TRACEPARENT", lit "old") ∷ []) child_environment (lit "SPAWN") refl

-- The session after the child "b" came into its tree.
abbrev running_session : SubagentTelemetrySession
running_session = record session {
  agent_tree = (record_agent_tree_spawn (lit "b") none session).agent_tree;
}

complete_subagent_spawn-running_example :
    ((complete_subagent_spawn platform (lit "s") (ending failed) 300 running_session).0 ≡ success)
    × (get
          (lit "s")
          (complete_subagent_spawn platform
            (lit "s")
            (ending failed)
            300
            running_session).1.active_subagent_spawns
        ≡ none)
    × (ends 0
          (complete_subagent_spawn platform (lit "s") (ending failed) 300 running_session).1.effects
        ≡ 0 + 1)
unfolding observ_me.Pi.Subagent.Start.record_agent_tree_spawn
    observ_me.Pi.Subagent.Start.ensure_agent_tree
    observ_me.Pi.Subagent.Start.create_synthetic_child_lineage observ_me.Pi.AgentTree.get_agent
    observ_me.Pi.AgentTree.register_agent observ_me.Pi.AgentTree.insert_agent
    observ_me.Util.BoundedMap.set observ_me.Util.BoundedMap.evict_oldest_entries_over_limit
    observ_me.Pi.AgentTree.retain_parent_for_insertion observ_me.Pi.AgentTree.retain_parent
    observ_me.Pi.AgentTree.link_parent_to_child observ_me.Pi.AgentTree.create_mutable_node
    observ_me.Pi.AgentTree.is_orphan observ_me.Pi.AgentTree.snapshot_node
    observ_me.Util.BoundedMap.evict_oldest_entry observ_me.Pi.AgentTree.on_evict
complete_subagent_spawn-running_example =
    complete_subagent_spawn-running platform (lit "s") failed 300 running_session spawn_state refl
      (inl refl)
