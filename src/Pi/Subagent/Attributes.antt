-- ===== src/Pi/Subagent/Attributes.antt =====
-- src/pi/subagent-spawn.ts: the attributes of the spans, the events and the logs of subagents.
use observ_me.Prelude.{
  ◌+◌, Bool, false, Option, none, some, List, [], ◌∷◌, ◌++◌, Str, lit, or_default,
}
use observ_me.Pi.Lineage.{ChildDescriptor}
use observ_me.Pi.ChildIdentity.{role_name}
use observ_me.Pi.AgentTree.{summarize, Summary}
use observ_me.Pi.AgentTree.Status.{AgentChildStatus, active}
use observ_me.Pi.Subagent.Types.{
  SubagentTelemetrySession, SubagentSpawnReason, AgentTerminalStatus, AgentWaitReason,
  AgentJoinStatus, waiting, AttributeValue, text, count, flag, AttributeMap, Platform,
}
use observ_me.Pi.Subagent.Labels.{
  spawn_reason_name, spawn_type_name, normalize_spawn_type, child_status_name, child_status,
  wait_reason_name, join_status_name, resolve_current_session_id,
}

-- Keys with a value or undefined.
abbrev pub OptionalAttributes : Type 0
OptionalAttributes = List (Str × Option AttributeValue)

abbrev pub without_undefined_attributes : OptionalAttributes → AttributeMap
without_undefined_attributes [] = []
without_undefined_attributes ((key, none) ∷ entries) = without_undefined_attributes entries
without_undefined_attributes ((key, some value) ∷ entries) =
    (key, value) ∷ without_undefined_attributes entries

abbrev pub text_of : Option Str → Option AttributeValue
text_of none = none
text_of (some s) = some (text s)

unfoldable pub build_subagent_child_identity_attributes :
    Option ChildDescriptor → OptionalAttributes
build_subagent_child_identity_attributes none = []
build_subagent_child_identity_attributes (some d) =
    (lit "pi.agent.child.display_name", some (text d.display_name))
    ∷ (lit "pi.agent.child.role", some (text (role_name d.role)))
    ∷ (lit "pi.agent.child.capability", some (text d.capability))
    ∷ []

abbrev pub joined_arguments : List Str → Str
joined_arguments [] = []
joined_arguments (s ∷ []) = s
joined_arguments (s ∷ t ∷ ts) = s ++ 0 ∷ joined_arguments (t ∷ ts)

unfoldable pub hash_command : Platform → Option Str → Option (List Str) → Option Str
hash_command p none args = none
hash_command p (some command) args =
    p.try_sha256 (command ++ 0 ∷ joined_arguments (or_default args []))

unfoldable pub build_subagent_spawn_attributes :
    Platform
    → SubagentTelemetrySession
    → (spawn_id child_agent_id : Str) → Option ChildDescriptor
    → (spawn_type tool_call_id command : Option Str) → Option (List Str)
    → SubagentSpawnReason
    → AttributeMap
unfolding build_subagent_child_identity_attributes hash_command
build_subagent_spawn_attributes p s spawn_id child_agent_id descriptor spawn_type tool_call_id
      command args reason =
    without_undefined_attributes (
      ((lit "pi.agent.spawn.id", some (text spawn_id))
        ∷ (
          lit "pi.agent.spawn.type",
          some (text (spawn_type_name (normalize_spawn_type spawn_type))),
        )
        ∷ (lit "pi.agent.spawn.reason", some (text (spawn_reason_name reason)))
        ∷ (lit "pi.agent.spawn.tool_call_id", text_of tool_call_id)
        ∷ (lit "pi.agent.spawn.command.hash", text_of (hash_command p command args))
        ∷ (lit "pi.agent.child.id", some (text child_agent_id))
        ∷ [])
      ++ build_subagent_child_identity_attributes descriptor
      ++ (lit "pi.agent.parent_id", some (text s.lineage.agent_id))
        ∷ (lit "pi.agent.root_id", some (text s.lineage.root_agent_id))
        ∷ (lit "pi.workflow.id", some (text s.lineage.workflow_id))
        ∷ (lit "pi.workflow.root_agent_id", some (text s.lineage.workflow_root_agent_id))
        ∷ (lit "pi.agent.depth", some (count (s.lineage.depth + 1)))
        ∷ (lit "pi.session.id", some (text (resolve_current_session_id s)))
        ∷ (lit "pi.agent.run.id", text_of s.current_agent_run_id)
        ∷ [])

abbrev pub own_summary : SubagentTelemetrySession → Summary
own_summary s = summarize s.agent_tree (some s.lineage.root_agent_id)

unfoldable pub build_subagent_completion_attributes :
    SubagentTelemetrySession
    → (spawn_id child_agent_id : Str) → Option ChildDescriptor
    → AgentTerminalStatus
    → SubagentSpawnReason
    → AttributeMap
unfolding build_subagent_child_identity_attributes
build_subagent_completion_attributes s spawn_id child_agent_id descriptor outcome reason =
    let summary = own_summary s in
    without_undefined_attributes (
      ((lit "pi.agent.spawn.id", some (text spawn_id))
        ∷ (lit "pi.agent.child.id", some (text child_agent_id))
        ∷ [])
      ++ build_subagent_child_identity_attributes descriptor
      ++ (lit "pi.agent.spawn.reason", some (text (spawn_reason_name reason)))
        ∷ (lit "pi.agent.spawn.outcome", some (text (child_status_name (child_status outcome))))
        ∷ (lit "pi.agent.children.active", some (count summary.active_children))
        ∷ (lit "pi.agent.child.count", some (count summary.fanout_count))
        ∷ (lit "pi.workflow.id", some (text s.lineage.workflow_id))
        ∷ (lit "pi.agent.parent_id", some (text s.lineage.agent_id))
        ∷ (lit "pi.agent.root_id", some (text s.lineage.root_agent_id))
        ∷ [])

unfoldable pub build_wait_join_attributes :
    SubagentTelemetrySession
    → (child_agent_id spawn_id : Option Str) → AgentWaitReason
    → Option AgentJoinStatus
    → Option AgentChildStatus
    → (failure_propagated : Option Bool) → AttributeMap
build_wait_join_attributes s child_agent_id spawn_id reason joined status propagated =
    let summary = own_summary s in
    without_undefined_attributes (
      (lit "pi.workflow.id", some (text s.lineage.workflow_id))
      ∷ (lit "pi.agent.id", some (text s.lineage.agent_id))
      ∷ (lit "pi.agent.child.id", text_of child_agent_id)
      ∷ (lit "pi.agent.spawn.id", text_of spawn_id)
      ∷ (lit "pi.agent.wait.reason", some (text (wait_reason_name reason)))
      ∷ (lit "pi.agent.join.status", some (text (join_status_name (or_default joined waiting))))
      ∷ (lit "pi.agent.child.status", some (text (child_status_name (or_default status active))))
      ∷ (lit "pi.agent.failure.propagated", some (flag (or_default propagated false)))
      ∷ (lit "pi.agent.children.active", some (count summary.active_children))
      ∷ (lit "pi.agent.child.count", some (count summary.fanout_count))
      ∷ [])
