-- ===== src/Pi/Lineage.antt =====
-- The data of src/pi/agent-lineage.ts and of the child identity in src/integration.ts.
use observ_me.Prelude.{ℕ, Bool, Option, none, some, Str, [], ◌∷◌}

pub data ChildRole : Type 0 where
  lead helper worker validator : ChildRole

pub data AgentRole : Type 0 where
  root : AgentRole
  child : ChildRole → AgentRole
  subagent orchestrator reviewer unknown : AgentRole

pub record ChildDescriptor : Type 0 where
  pub display_name : Str
  pub role : ChildRole
  pub capability : Str

pub record ValidatedParentTraceContext : Type 0 where
  pub trace_id : Str
  pub span_id : Str
  pub trace_flags : ℕ
  pub tracestate : Option Str

pub data ParentPropagationFailureReason : Type 0 where
  partial_envelope malformed_envelope stale_envelope : ParentPropagationFailureReason
  unsupported_identity_envelope : ParentPropagationFailureReason

pub record AgentLineageContext : Type 0 where
  pub workflow_id : Str
  pub workflow_root_agent_id : Str
  pub agent_id : Str
  pub parent_agent_id : Option Str
  pub root_agent_id : Str
  pub depth : ℕ
  pub role : AgentRole
  pub display_name : Option Str
  pub capability : Option Str
  pub parent_session_id : Option Str
  pub parent_trace_id : Option Str
  pub parent_span_id : Option Str
  pub spawn_id : Option Str
  pub propagated_trace_context : Option ValidatedParentTraceContext
  pub propagation_failure : Option ParentPropagationFailureReason
  pub orphaned : Bool

-- A string that JavaScript takes for true: it is there and not empty.
abbrev pub truthy : Option Str → Option Str
truthy none = none
truthy (some []) = none
truthy (some (c ∷ s)) = some (c ∷ s)
