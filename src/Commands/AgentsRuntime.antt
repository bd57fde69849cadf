-- ===== src/Commands/AgentsRuntime.antt =====
-- src/commands/obs-agents-runtime.ts: what the process shows of its agents, one object of the module
-- that the sessions write to.
use observ_me.Prelude.{
  ℕ, ◌-◌, ◌==◌, bool_eq, Bool, true, false, not, ◌&&◌, ◌||◌, Option, none, some, List, [], ◌∷◌, Str,
  str_equality, if◌then◌else◌, length, drop, trim,
}
use observ_me.Prelude.JsNumber.{JsNumber, finite, is_finite, below}
use observ_me.Pi.Lineage.{AgentLineageContext, truthy}
use observ_me.Pi.AgentTree.{AgentTree, Snapshot, Summary, get_agent, get_children, summarize}
use observ_me.Pi.AgentTree.Status.{AgentChildStatus}

pub data AgentWaitJoinKind : Type 0 where
  wait join : AgentWaitJoinKind

abbrev pub same_kind : AgentWaitJoinKind → AgentWaitJoinKind → Bool
same_kind wait wait = true
same_kind join join = true
same_kind _ _ = false

pub record ObsAgentWaitJoinHint : Type 0 where
  pub kind : AgentWaitJoinKind
  pub id : Str
  pub active : Bool
  pub spawn_id : Option Str
  pub child_agent_id : Option Str
  pub child_status : Option AgentChildStatus
  pub join_status : Option Str
  pub reason : Option Str
  pub duration_ms : Option JsNumber

pub record ObsAgentsRuntimeState : Type 0 where
  pub lineage : Option AgentLineageContext
  pub current_agent : Option Snapshot
  pub summary : Option Summary
  pub children : List Snapshot
  pub wait_join_hints : List ObsAgentWaitJoinHint
  pub session_id : Option Str
  pub trace_id : Option Str

abbrev pub max_wait_join_hints : ℕ
max_wait_join_hints = 10

unfoldable pub create_empty_obs_agents_runtime_state : ObsAgentsRuntimeState
create_empty_obs_agents_runtime_state = record {
  lineage = none;
  current_agent = none;
  summary = none;
  children = [];
  wait_join_hints = [];
  session_id = none;
  trace_id = none;
}

abbrev pub normalize_string : Option Str → Option Str
normalize_string none = none
normalize_string (some s) = truthy (some (trim s))

-- Math.trunc drops the fraction.
abbrev pub truncated : JsNumber → JsNumber
truncated (finite sign w f) = finite sign w 0
truncated n = n

unfoldable pub normalize_duration_ms : Option JsNumber → Option JsNumber
normalize_duration_ms none = none
normalize_duration_ms (some n) = if not (is_finite n) || below n 0 then none else some (truncated n)

unfoldable pub update_optional_runtime_string : Option Str → Option Str → Option Str
update_optional_runtime_string none current = current
update_optional_runtime_string (some s) current = normalize_string (some s)

unfoldable pub update_obs_agents_runtime_state_from_tree :
    AgentLineageContext
    → AgentTree
    → (session_id trace_id : Option Str) → ObsAgentsRuntimeState
    → ObsAgentsRuntimeState
unfolding update_optional_runtime_string
update_obs_agents_runtime_state_from_tree lineage tree session_id trace_id r = record r {
  lineage = some lineage;
  current_agent = get_agent tree lineage.agent_id;
  summary = some (summarize tree (some lineage.root_agent_id));
  children = get_children tree lineage.agent_id;
  session_id = update_optional_runtime_string session_id r.session_id;
  trace_id = update_optional_runtime_string trace_id r.trace_id;
}

unfoldable pub published_tree :
    AgentLineageContext
    → Option AgentTree
    → (session_id trace_id : Option Str) → ObsAgentsRuntimeState
    → ObsAgentsRuntimeState
unfolding update_obs_agents_runtime_state_from_tree
published_tree lineage none session_id trace_id r = r
published_tree lineage (some tree) session_id trace_id r =
    update_obs_agents_runtime_state_from_tree lineage tree session_id trace_id r

unfoldable pub start_obs_agents_runtime_state :
    AgentLineageContext
    → Option AgentTree
    → (session_id trace_id : Option Str) → ObsAgentsRuntimeState
unfolding create_empty_obs_agents_runtime_state published_tree
start_obs_agents_runtime_state lineage tree session_id trace_id =
    published_tree lineage tree session_id trace_id (record create_empty_obs_agents_runtime_state {
      lineage = some lineage;
      session_id = normalize_string session_id;
      trace_id = normalize_string trace_id;
    })

unfoldable pub with_id : ObsAgentWaitJoinHint → Option Str → Option ObsAgentWaitJoinHint
unfolding normalize_duration_ms
with_id hint none = none
with_id hint (some id) = some (record {
  kind = hint.kind;
  id = id;
  active = hint.active;
  spawn_id = normalize_string hint.spawn_id;
  child_agent_id = normalize_string hint.child_agent_id;
  child_status = hint.child_status;
  join_status = normalize_string hint.join_status;
  reason = normalize_string hint.reason;
  duration_ms = normalize_duration_ms hint.duration_ms;
})

unfoldable pub normalize_obs_agent_wait_join_hint :
    ObsAgentWaitJoinHint → Option ObsAgentWaitJoinHint
unfolding with_id
normalize_obs_agent_wait_join_hint hint = with_id hint (normalize_string (some hint.id))

abbrev pub same_operation : ObsAgentWaitJoinHint → ObsAgentWaitJoinHint → Bool
same_operation hint item = same_kind item.kind hint.kind && item.id == hint.id

-- The first hint of the same operation is replaced, else the hint goes to the end.
abbrev pub place_hint : ObsAgentWaitJoinHint → List ObsAgentWaitJoinHint → List ObsAgentWaitJoinHint
place_hint hint [] = hint ∷ []
place_hint hint (item ∷ items) =
    if same_operation hint item then hint ∷ items else item ∷ place_hint hint items

-- slice(-max)
abbrev pub last_hints : ℕ → List ObsAgentWaitJoinHint → List ObsAgentWaitJoinHint
last_hints n hints = drop (length hints - n) hints

abbrev pub record_normalized :
    Option ObsAgentWaitJoinHint → ObsAgentsRuntimeState → ObsAgentsRuntimeState
record_normalized none r = r
record_normalized (some hint) r = record r {
  wait_join_hints = last_hints max_wait_join_hints (place_hint hint r.wait_join_hints);
}

unfoldable pub record_obs_agent_wait_join_hint :
    ObsAgentWaitJoinHint → ObsAgentsRuntimeState → ObsAgentsRuntimeState
unfolding normalize_obs_agent_wait_join_hint
record_obs_agent_wait_join_hint hint r =
    record_normalized (normalize_obs_agent_wait_join_hint hint) r
