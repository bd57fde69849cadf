-- ===== src/Pi/Propagation/Context.antt =====
-- src/pi/agent-lineage.ts: the lineage of an agent, from what its environment propagates. What
-- `readTrustedPropagatedLineage` and the completeness check give is an argument here.
use observ_me.Prelude.{
  ℕ, Bool, true, false, not, ◌&&◌, ◌||◌, Option, none, some, ◌++◌, Str, lit, if◌then◌else◌, is_some,
  or_default, or_else,
}
use observ_me.Pi.Lineage.{
  AgentRole, child, ChildRole, AgentLineageContext, ValidatedParentTraceContext,
  ParentPropagationFailureReason, truthy,
}
use observ_me.Pi.Propagation.{
  Checked, passed, failed, resolve_root_agent_id, resolve_depth, resolve_default_role,
}

pub record PropagatedLineageEnvironment : Type 0 where
  pub workflow_id : Option Str
  pub agent_id : Option Str
  pub parent_agent_id : Option Str
  pub root_agent_id : Option Str
  pub parent_session_id : Option Str
  pub parent_trace_id : Option Str
  pub parent_span_id : Option Str
  pub depth : Option ℕ
  pub spawn_id : Option Str
  pub display_name : Option Str
  pub role : Option ChildRole
  pub capability : Option Str
  pub trace_context : Option ValidatedParentTraceContext

abbrev pub no_lineage : PropagatedLineageEnvironment
no_lineage = record {
  workflow_id = none;
  agent_id = none;
  parent_agent_id = none;
  root_agent_id = none;
  parent_session_id = none;
  parent_trace_id = none;
  parent_span_id = none;
  depth = none;
  spawn_id = none;
  display_name = none;
  role = none;
  capability = none;
  trace_context = none;
}

pub record Propagation : Type 0 where
  pub lineage : PropagatedLineageEnvironment
  pub failure : Option ParentPropagationFailureReason

-- What the code reads of `CreateAgentLineageContextOptions`.
pub record LineageOptions : Type 0 where
  pub trusted_parent_context : Bool
  pub role : Option AgentRole
  pub display_name : Option Str
  pub capability : Option Str
  pub fail_open_invalid_propagation : Bool

abbrev pub on_failure : Bool → ParentPropagationFailureReason → Checked Propagation
on_failure true reason = passed (record { lineage = no_lineage; failure = some reason })
on_failure false reason = failed reason

abbrev pub recovered : Bool → Checked PropagatedLineageEnvironment → Checked Propagation
recovered fail_open (passed l) = passed (record { lineage = l; failure = none })
recovered fail_open (failed reason) = on_failure fail_open reason

unfoldable pub resolve_trusted_propagation :
    LineageOptions → Checked PropagatedLineageEnvironment → Checked Propagation
resolve_trusted_propagation o read =
    if o.trusted_parent_context
    then recovered o.fail_open_invalid_propagation read
    else passed (record { lineage = no_lineage; failure = none })

abbrev pub role_of : Option ChildRole → Option AgentRole
role_of none = none
role_of (some r) = some (child r)

-- The context past `resolveTrustedPropagation`, with the two identifiers that `generateId` gives in
-- turn to an agent and to a workflow that have none.
abbrev pub context_of : LineageOptions → Propagation → (agent workflow : Str) → AgentLineageContext
context_of o p agent workflow =
    let l = p.lineage in
    let agent_id = or_default l.agent_id (lit "agent-" ++ agent) in
    let root_agent_id = resolve_root_agent_id agent_id l.root_agent_id in
    record {
      workflow_id = or_default l.workflow_id (lit "workflow-" ++ workflow);
      workflow_root_agent_id = root_agent_id;
      agent_id = agent_id;
      parent_agent_id = l.parent_agent_id;
      root_agent_id = root_agent_id;
      depth = resolve_depth l.depth l.parent_agent_id;
      role = or_default (or_else o.role (role_of l.role)) (resolve_default_role l.parent_agent_id);
      display_name = or_else o.display_name l.display_name;
      capability = or_else o.capability l.capability;
      parent_session_id = l.parent_session_id;
      parent_trace_id = l.parent_trace_id;
      parent_span_id = l.parent_span_id;
      spawn_id = l.spawn_id;
      propagated_trace_context = l.trace_context;
      propagation_failure = p.failure;
      orphaned =
          is_some (truthy l.parent_agent_id) && not (is_some (truthy l.root_agent_id))
          || is_some p.failure;
    }

abbrev pub created :
    LineageOptions → (agent workflow : Str) → Checked Propagation → Checked AgentLineageContext
created o agent workflow (passed p) = passed (context_of o p agent workflow)
created o agent workflow (failed reason) = failed reason

unfoldable pub create_agent_lineage_context :
    LineageOptions
    → Checked PropagatedLineageEnvironment
    → (agent workflow : Str) → Checked AgentLineageContext
unfolding resolve_trusted_propagation
create_agent_lineage_context o read agent workflow =
    created o agent workflow (resolve_trusted_propagation o read)
