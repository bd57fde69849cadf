-- ===== src/Pi/Subagent/Observation.antt =====
-- src/pi/subagent-spawn.ts: how a session takes in the lineage that another process reports.
use observ_me.Prelude.{Bool, Option, none, some, [], ◌∷◌, Str, lit, if◌then◌else◌, or_default}
use observ_me.Pi.Lineage.{AgentLineageContext}
use observ_me.Pi.AgentTree.{Snapshot, Node, register_agent}
use observ_me.Pi.AgentTree.Status.{AgentChildStatus}
use observ_me.Pi.Propagation.{Checked, passed, failed}
use observ_me.Pi.Subagent.Types.{
  SubagentTelemetrySession, Labels, AttributeMap, text, counted, orphan_agents,
  trace_context_propagation_failures, severity_error, Platform,
}
use observ_me.Pi.Subagent.Labels.{
  child_status_name, trace_context_failure_metric_labels, normalize_metric_label,
}
use observ_me.Pi.Subagent.Spans.{
  emit, emit_subagent_log, record_agent_tree_metrics, record_obs_agents_tree_state,
}
use observ_me.Pi.Subagent.Attributes.{own_summary}

unfoldable pub metric_labels : AgentChildStatus → (is_orphaned : Bool) → Labels
metric_labels status is_orphaned =
    (lit "status", child_status_name status)
    ∷ (lit "reason", if is_orphaned then lit "orphaned" else lit "attached")
    ∷ []

unfoldable pub record_orphan_agent : Node → SubagentTelemetrySession → SubagentTelemetrySession
unfolding metric_labels
record_orphan_agent node s =
    let name = lit "agent.orphaned" in
    let attributes : AttributeMap =
      (lit "event.name", text name)
      ∷ (lit "event.category", text (lit "agent-tree"))
      ∷ (lit "pi.workflow.id", text node.workflow_id)
      ∷ (lit "pi.agent.id", text node.agent_id)
      ∷ (lit "pi.agent.parent_id", text (or_default node.parent_agent_id (lit "unknown")))
      ∷ (lit "pi.agent.root_id", text node.root_agent_id)
      ∷ [] in
    emit_subagent_log name attributes severity_error
      (emit (counted orphan_agents (metric_labels node.status node.is_orphaned)) s)

-- `error_class` is the class of the error that was thrown.
unfoldable pub record_malformed_lineage :
    (error_class : Str) → SubagentTelemetrySession → SubagentTelemetrySession
record_malformed_lineage error_class s =
    let name = lit "trace_context.propagation_failed" in
    let attributes : AttributeMap =
      (lit "event.name", text name)
      ∷ (lit "event.category", text (lit "agent-tree"))
      ∷ (lit "pi.workflow.id", text s.lineage.workflow_id)
      ∷ (lit "pi.agent.id", text s.lineage.agent_id)
      ∷ (lit "error.type", text error_class)
      ∷ [] in
    emit_subagent_log name attributes severity_error
      (emit (counted trace_context_propagation_failures (trace_context_failure_metric_labels s)) s)

abbrev pub record_if_orphaned : Node → SubagentTelemetrySession → SubagentTelemetrySession
record_if_orphaned node s = if node.is_orphaned then record_orphan_agent node s else s

-- The metrics and the log of the node that the tree has registered.
abbrev pub record_registered :
    Option Snapshot → SubagentTelemetrySession → Option Snapshot × SubagentTelemetrySession
record_registered none s = (none, s)
record_registered (some snapshot) s =
    let node = snapshot.node in
    let measured =
      record_agent_tree_metrics (own_summary s) (metric_labels node.status node.is_orphaned) s in
    (some snapshot, record_obs_agents_tree_state (record_if_orphaned node measured))

unfoldable pub record_subagent_lineage_observation :
    AgentLineageContext
    → AgentChildStatus
    → SubagentTelemetrySession
    → Option Snapshot × SubagentTelemetrySession
record_subagent_lineage_observation lineage status s =
    let done = register_agent s.agent_tree lineage status none in
    record_registered done.result (record s { agent_tree = done.tree })

-- The lineage that `createAgentLineageContext` makes of the environment, or the error that it throws.
unfoldable pub observe_trusted_subagent_lineage :
    Platform
    → Checked AgentLineageContext
    → AgentChildStatus
    → SubagentTelemetrySession
    → Option Snapshot × SubagentTelemetrySession
unfolding record_subagent_lineage_observation record_malformed_lineage
observe_trusted_subagent_lineage p (passed lineage) status s =
    record_subagent_lineage_observation lineage status s
observe_trusted_subagent_lineage p (failed reason) status s = (
  none,
  record_malformed_lineage (normalize_metric_label p (lit "LineageValidationError") (lit "error"))
      s,
)
