-- ===== src/Pi/Subagent/Types.antt =====
-- src/pi/subagent-types.ts, src/pi/subagent-spawn.ts: what a session knows of the agents that it
-- starts, waits for and joins, and what it says of them.
-- A span is its number in the order of their starts. What the code tells the telemetry library is
-- the list of effects, the oldest first. Times are whole milliseconds.
use observ_me.Prelude.{ℕ, Bool, Option, List, Str}
use observ_me.Prelude.JsNumber.{JsNumber}
use observ_me.Util.JsMap.{JsMap}
use observ_me.Util.MembershipFilter.{Digest}
use observ_me.Config.Schema.{WorkflowConfig, AgentConfig}
use observ_me.Commands.AgentsRuntime.{AgentWaitJoinKind, ObsAgentsRuntimeState}
use observ_me.Pi.Lineage.{AgentLineageContext, ChildDescriptor}
use observ_me.Pi.AgentTree.{AgentTree}
use observ_me.Pi.AgentTree.Status.{AgentChildStatus}
use observ_me.Pi.TerminalOutcome.{SpanStatusCode}
use observ_me.Pi.Subagent.Accounting.{Ledger}

pub data SubagentSpawnType : Type 0 where
  command tool extension unknown_type : SubagentSpawnType

pub data SubagentSpawnReason : Type 0 where
  delegated_task parallel_search review tool_wrapper unknown_spawn : SubagentSpawnReason

pub data AgentWaitReason : Type 0 where
  dependency rate_limit child_running unknown_wait : AgentWaitReason

pub data AgentTerminalStatus : Type 0 where
  completed failed cancelled : AgentTerminalStatus

pub data AgentJoinStatus : Type 0 where
  join_completed join_failed join_cancelled timeout join_unknown waiting : AgentJoinStatus

pub data SubagentTransitionFailureReason : Type 0 where
  spawn_not_found child_agent_mismatch invalid_terminal_transition : SubagentTransitionFailureReason

pub data SubagentTransitionResult : Type 0 where
  success : SubagentTransitionResult
  failure : SubagentTransitionFailureReason → SubagentTransitionResult

abbrev pub Labels : Type 0
Labels = JsMap Str Str

-- `AttributePrimitive`
pub data AttributeValue : Type 0 where
  text : Str → AttributeValue
  count : ℕ → AttributeValue
  flag : Bool → AttributeValue
  texts : List Str → AttributeValue

abbrev pub AttributeMap : Type 0
AttributeMap = JsMap Str AttributeValue

pub record SpanContext : Type 0 where
  pub trace_id : Str
  pub span_id : Str
  pub trace_flags : ℕ
  -- The serialized trace state.
  pub tracestate : Option Str

pub record SubagentSpawnState : Type 0 where
  pub span : ℕ
  pub child_agent_id : Str
  pub child_descriptor : Option ChildDescriptor
  pub started_at_ms : ℕ
  pub launcher_completed : Bool
  pub labels : Labels
  pub spawn_reason : SubagentSpawnReason
  pub trace_context_propagated : Bool

pub record AgentWaitJoinState : Type 0 where
  pub id : Str
  pub kind : AgentWaitJoinKind
  pub span : ℕ
  pub started_at_ms : ℕ
  pub labels : Labels
  pub reason : AgentWaitReason
  pub spawn_id : Option Str
  pub child_agent_id : Option Str
  pub child_status : Option AgentChildStatus
  pub join_status : Option AgentJoinStatus
  pub failure_propagated : Option Bool

pub data SubagentCounter : Type 0 where
  subagents_spawned subagent_spawn_failures orphan_agents : SubagentCounter
  trace_context_propagation_failures child_agent_failures : SubagentCounter
  parent_recovered_from_child_failure : SubagentCounter

pub data SubagentHistogram : Type 0 where
  agent_fanout_count agent_tree_depth agent_tree_width agent_wait_duration_ms : SubagentHistogram
  agent_join_duration_ms subagent_spawn_duration_ms : SubagentHistogram

pub data Severity : Type 0 where
  severity_info severity_error : Severity

pub data Effect : Type 0 where
  span_started : (span : ℕ) (name : Str) (parent : Option ℕ) → AttributeMap → Effect
  attributes_set : (span : ℕ) → AttributeMap → Effect
  status_set : (span : ℕ) → SpanStatusCode → (message : Option Str) → Effect
  event_added : (span : ℕ) (name : Str) → AttributeMap → Effect
  span_ended : (span : ℕ) → Effect
  active_span_added active_span_removed : (operation : Str) → Effect
  counted : SubagentCounter → Labels → Effect
  recorded : SubagentHistogram → JsNumber → Labels → Effect
  logged : Severity → (body : Str) → AttributeMap → Effect
  telemetry_dropped : (reason operation : Str) → Effect

-- The numbers of the validated configuration are positive whole numbers.
pub record SubagentTelemetrySession : Type 0 where
  pub lineage : AgentLineageContext
  pub workflow : WorkflowConfig
  pub agent : AgentConfig
  pub max_depth_warning : ℕ
  pub max_active_subagent_spawns : ℕ
  pub max_active_agent_waits : ℕ
  pub max_active_agent_joins : ℕ
  pub session_span : Option ℕ
  pub session_attributes : Option AttributeMap
  pub current_agent_run_id : Option Str
  pub current_turn_id : Option Str
  pub active_agent_runs : JsMap Str ℕ
  pub active_turns : JsMap Str ℕ
  pub active_subagent_spawns : JsMap Str SubagentSpawnState
  pub active_agent_waits : JsMap Str AgentWaitJoinState
  pub active_agent_joins : JsMap Str AgentWaitJoinState
  pub agent_tree : AgentTree
  pub child_failures : Ledger
  -- `activeSpanOperations`, which the process shares
  pub active_span_operations : JsMap ℕ Str
  pub runtime : ObsAgentsRuntimeState
  pub next_span : ℕ
  pub effects : List Effect

-- What the code asks of the libraries: Node's hashes and identifiers, the language's lower case, the
-- environment of the process, and the contexts of the tracer's spans. `try_sha256` is the salted hash of src/privacy/hash.ts, which
-- is not there where no salt is set.
pub record Platform : Type 0 where
  pub digest : Str → Digest
  pub sha256_hex : Str → Str
  pub try_sha256 : Str → Option Str
  pub to_lower_case : Str → Str
  pub random_uuid : Str
  pub process_env : JsMap Str Str
  pub is_span_context_valid : SpanContext → Bool
  -- None where the span has no context or asking for it throws.
  pub span_context : ℕ → Option SpanContext
