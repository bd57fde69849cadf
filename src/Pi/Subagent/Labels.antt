-- ===== src/Pi/Subagent/Labels.antt =====
-- src/pi/subagent-spawn.ts: the values that labels and attributes take. All labels of one metric have
-- the same few names, none of which the audit of labels refuses.
use observ_me.Prelude.{
  ℕ, ◌+◌, ◌==◌, nat_eq, Bool, true, false, ◌&&◌, ◌||◌, Option, none, some, List, [], ◌∷◌, ◌++◌, Str,
  lit, str_equality, max, min, leb, if◌then◌else◌, length, all, or_default, map, trim,
}
use observ_me.Util.JsMap.{get}
use observ_me.Commands.AgentsRuntime.{AgentWaitJoinKind, wait, join}
use observ_me.Pi.Lineage.{AgentRole, root, child, subagent, orchestrator, reviewer, unknown}
use observ_me.Pi.ChildIdentity.{role_name, code_points}
use observ_me.Pi.AgentTree.Status.{AgentChildStatus, starting, active, orphaned, status_eq}
use observ_me.Pi.AgentTree.Status
use observ_me.Pi.Propagation.{decimal}
use observ_me.Pi.Subagent.Types.{
  SubagentSpawnType, command, tool, extension, unknown_type, SubagentSpawnReason, delegated_task,
  parallel_search, review, tool_wrapper, unknown_spawn, AgentWaitReason, dependency, rate_limit,
  child_running, unknown_wait, AgentTerminalStatus, completed, failed, cancelled, AgentJoinStatus,
  join_completed, join_failed, join_cancelled, timeout, join_unknown, waiting, Labels,
  AttributeValue, text, count, flag, texts, AttributeMap, SubagentTelemetrySession, Platform,
}

abbrev pub agent_role_name : AgentRole → Str
agent_role_name root = lit "root"
agent_role_name (child r) = role_name r
agent_role_name subagent = lit "subagent"
agent_role_name orchestrator = lit "orchestrator"
agent_role_name reviewer = lit "reviewer"
agent_role_name unknown = lit "unknown"

abbrev pub spawn_type_name : SubagentSpawnType → Str
spawn_type_name command = lit "command"
spawn_type_name tool = lit "tool"
spawn_type_name extension = lit "extension"
spawn_type_name unknown_type = lit "unknown"

abbrev pub spawn_reason_name : SubagentSpawnReason → Str
spawn_reason_name delegated_task = lit "delegated_task"
spawn_reason_name parallel_search = lit "parallel_search"
spawn_reason_name review = lit "review"
spawn_reason_name tool_wrapper = lit "tool_wrapper"
spawn_reason_name unknown_spawn = lit "unknown"

abbrev pub wait_reason_name : AgentWaitReason → Str
wait_reason_name dependency = lit "dependency"
wait_reason_name rate_limit = lit "rate_limit"
wait_reason_name child_running = lit "child_running"
wait_reason_name unknown_wait = lit "unknown"

abbrev pub child_status_name : AgentChildStatus → Str
child_status_name Status.starting = lit "starting"
child_status_name Status.active = lit "active"
child_status_name Status.completed = lit "completed"
child_status_name Status.failed = lit "failed"
child_status_name Status.cancelled = lit "cancelled"
child_status_name Status.orphaned = lit "orphaned"

abbrev pub join_status_name : AgentJoinStatus → Str
join_status_name join_completed = lit "completed"
join_status_name join_failed = lit "failed"
join_status_name join_cancelled = lit "cancelled"
join_status_name timeout = lit "timeout"
join_status_name join_unknown = lit "unknown"
join_status_name waiting = lit "waiting"

-- A terminal status as a status of a child.
abbrev pub child_status : AgentTerminalStatus → AgentChildStatus
child_status completed = Status.completed
child_status failed = Status.failed
child_status cancelled = Status.cancelled

unfoldable pub is_agent_terminal_status : Str → Option AgentTerminalStatus
is_agent_terminal_status value =
    if value == lit "completed"
    then some completed
    else if value == lit "failed"
    then some failed
    else if value == lit "cancelled"
    then some cancelled
    else none

abbrev pub find_named {ℓ} : {A : Type ℓ} → (A → Str) → A → Str → List A → A
find_named name default value [] = default
find_named name default value (x ∷ xs) =
    if name x == value then x else find_named name default value xs

abbrev pub spawn_types : List SubagentSpawnType
spawn_types = command ∷ tool ∷ extension ∷ []

unfoldable pub normalize_spawn_type : Option Str → SubagentSpawnType
normalize_spawn_type none = unknown_type
normalize_spawn_type (some value) = find_named spawn_type_name unknown_type value spawn_types

abbrev pub subagent_spawn_reason_values : List SubagentSpawnReason
subagent_spawn_reason_values =
    delegated_task ∷ parallel_search ∷ review ∷ tool_wrapper ∷ unknown_spawn ∷ []

unfoldable pub normalize_spawn_reason : Option Str → SubagentSpawnReason
normalize_spawn_reason none = unknown_spawn
normalize_spawn_reason (some value) =
    find_named spawn_reason_name unknown_spawn value subagent_spawn_reason_values

abbrev pub agent_wait_reason_values : List AgentWaitReason
agent_wait_reason_values = dependency ∷ rate_limit ∷ child_running ∷ unknown_wait ∷ []

abbrev pub is_waiting : Option AgentJoinStatus → Bool
is_waiting (some waiting) = true
is_waiting _ = false

abbrev pub is_status : AgentChildStatus → Option AgentChildStatus → Bool
is_status status none = false
is_status status (some current) = current == status

abbrev pub is_wait : AgentWaitJoinKind → Bool
is_wait wait = true
is_wait join = false

unfoldable pub is_waiting_for_active_child :
    Option AgentChildStatus → Option AgentJoinStatus → AgentWaitJoinKind → Bool
is_waiting_for_active_child status joined kind =
    if is_status active status then is_wait kind || is_waiting joined else false

unfoldable pub normalize_wait_reason :
    Option Str
    → Option AgentChildStatus
    → Option AgentJoinStatus
    → AgentWaitJoinKind
    → AgentWaitReason
unfolding is_waiting_for_active_child
normalize_wait_reason none status joined kind =
    if is_waiting_for_active_child status joined kind then child_running else unknown_wait
normalize_wait_reason (some value) status joined kind =
    find_named wait_reason_name unknown_wait value agent_wait_reason_values

-- The set of statuses that `normalizeWaitJoinStatus` lets through has the names of both types.
abbrev pub wait_join_status_name : Option AgentJoinStatus → Option AgentChildStatus → Str
wait_join_status_name (some joined) status = join_status_name joined
wait_join_status_name none (some status) = child_status_name status
wait_join_status_name none none = lit "waiting"

-- String.fromCharCode of what a replaced code point becomes
abbrev pub is_label_unit : ℕ → Bool
is_label_unit c =
    leb b'a' c && leb c b'z'
    || leb b'0' c && leb c b'9'
    || c == b'_'
    || c == b'.'
    || c == b':'
    || c == b'-'

abbrev pub label_unit : ℕ → ℕ
label_unit c = if is_label_unit c then c else b'_'

abbrev pub is_metric_label : Str → Bool
is_metric_label [] = false
is_metric_label (c ∷ s) = leb b'a' c && leb c b'z' && all is_label_unit s && leb (length s) 63

unfoldable pub normalize_metric_label : Platform → Str → Str → Str
unfolding code_points
normalize_metric_label p value fallback =
    let normalized = map label_unit (code_points (p.to_lower_case (trim value))) in
    if is_metric_label normalized then normalized else fallback

abbrev pub join_texts : List Str → Str
join_texts [] = []
join_texts (s ∷ []) = s
join_texts (s ∷ t ∷ ts) = s ++ lit "," ++ join_texts (t ∷ ts)

-- toString of an attribute
abbrev pub attribute_text : AttributeValue → Str
attribute_text (text s) = s
attribute_text (count n) = decimal n
attribute_text (flag true) = lit "true"
attribute_text (flag false) = lit "false"
attribute_text (texts ss) = join_texts ss

abbrev pub attribute_of : Str → Option AttributeMap → Option AttributeValue
attribute_of key none = none
attribute_of key (some attributes) = get key attributes

abbrev pub session_id_of : Option AttributeValue → Str → Str
session_id_of none workflow_id = lit "session-" ++ workflow_id
session_id_of (some value) workflow_id = attribute_text value

unfoldable pub resolve_current_session_id : SubagentTelemetrySession → Str
resolve_current_session_id s =
    session_id_of (attribute_of (lit "pi.session.id") s.session_attributes) s.lineage.workflow_id

unfoldable pub subagent_depth_label : SubagentTelemetrySession → Str
subagent_depth_label s = decimal (max 0 (min (s.lineage.depth + 1) s.max_depth_warning))

unfoldable pub common_labels : SubagentTelemetrySession → Labels
unfolding subagent_depth_label
common_labels s =
    (lit "agent_role", agent_role_name s.lineage.role)
    ∷ (lit "subagent_depth", subagent_depth_label s)
    ∷ []

unfoldable pub child_failure_metric_labels : SubagentTelemetrySession → Labels
unfolding common_labels
child_failure_metric_labels s = common_labels s

unfoldable pub trace_context_failure_metric_labels : SubagentTelemetrySession → Labels
unfolding common_labels
trace_context_failure_metric_labels s =
    common_labels s ++ (lit "reason", lit "trace_context_fallback") ∷ []

unfoldable pub subagent_spawn_metric_labels :
    SubagentTelemetrySession → Option Str → SubagentSpawnReason → Labels
unfolding common_labels normalize_spawn_type
subagent_spawn_metric_labels s spawn_type reason =
    common_labels s
    ++ (lit "spawn_type", spawn_type_name (normalize_spawn_type spawn_type))
      ∷ (lit "spawn_reason", spawn_reason_name reason)
      ∷ []

unfoldable pub subagent_failure_metric_labels : Labels → AttributeMap → Labels
subagent_failure_metric_labels labels attributes =
    (lit "spawn_type", or_default (get (lit "spawn_type") labels) (lit "unknown"))
    ∷ (
      lit "error_class",
      attribute_text
          (or_default (get (lit "error.type") attributes) (text (lit "subagent_spawn_error"))),
    )
    ∷ []

unfoldable pub wait_join_metric_labels :
    SubagentTelemetrySession
    → Option AgentJoinStatus
    → Option AgentChildStatus
    → AgentWaitReason
    → Labels
unfolding common_labels
wait_join_metric_labels s joined status reason =
    common_labels s
    ++ (lit "status", wait_join_status_name joined status)
      ∷ (lit "reason", wait_reason_name reason)
      ∷ []
