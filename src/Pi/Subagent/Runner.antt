-- ===== src/Pi/Subagent/Runner.antt =====
-- src/pi/subagent-spawn.ts, src/integration.ts: how the settling of a runner's promise ends the spawn
-- that it was given. What the session does while the runner runs comes between the start and this.
use observ_me.Prelude.{
  ℕ, ◌==◌, Bool, true, false, ◌||◌, Option, none, some, Str, lit, str_equality, if◌then◌else◌,
  or_default,
}
use observ_me.Prelude.JsValue.{
  JsValue, undefined, null, callable, boolean, number, string, array, object, property,
}
use observ_me.Pi.AgentTree.Status.{AgentChildStatus}
use observ_me.Pi.AgentTree.Status
use observ_me.Pi.Subagent.Types.{
  SubagentTelemetrySession, AgentTerminalStatus, completed, failed, cancelled, AgentJoinStatus,
  join_completed, join_failed, join_cancelled, timeout, join_unknown, Platform,
}
use observ_me.Pi.Subagent.Labels.{
  normalize_metric_label, child_status, child_status_name, is_status,
}
use observ_me.Pi.Subagent.Spans.{update_child_status, record_obs_agents_tree_state}
use observ_me.Pi.Subagent.Spawn.{
  CompleteSubagentSpawnOptions, complete_subagent_launch, complete_subagent_spawn,
  fail_subagent_spawn,
}

pub data ObservMeRunnerResultStatus : Type 0 where
  result_completed result_failed result_cancelled result_timeout : ObservMeRunnerResultStatus

pub data ObservMeRunnerPhase : Type 0 where
  phase_launch phase_wait : ObservMeRunnerPhase

pub data ObservMeRunnerOutcomeKind : Type 0 where
  child_completed child_failed child_cancelled wait_timeout : ObservMeRunnerOutcomeKind
  caller_cancelled launcher_failure transport_failure : ObservMeRunnerOutcomeKind

pub record ObservMeRunnerOutcome : Type 0 where
  pub kind : ObservMeRunnerOutcomeKind
  pub child_status : AgentChildStatus
  pub join_status : AgentJoinStatus
  pub terminal_child_status : Option AgentTerminalStatus

-- A value that is thrown: an instance of Error by its name, or any other value.
pub data Thrown : Type 0 where
  error_object : (name : Str) → Thrown
  other_value : JsValue → Thrown

pub data ObservMeRunnerSettlement : Type 0 where
  settled_result : Option ObservMeRunnerResultStatus → ObservMeRunnerSettlement
  settled_error : ObservMeRunnerPhase → Thrown → (aborted : Bool) → ObservMeRunnerSettlement

unfoldable pub runner_outcome :
    ObservMeRunnerOutcomeKind
    → AgentChildStatus
    → AgentJoinStatus
    → Option AgentTerminalStatus
    → ObservMeRunnerOutcome
runner_outcome kind status joined terminal = record {
  kind = kind;
  child_status = status;
  join_status = joined;
  terminal_child_status = terminal;
}

unfoldable pub classify_observ_me_runner_result : ObservMeRunnerResultStatus → ObservMeRunnerOutcome
unfolding runner_outcome
classify_observ_me_runner_result result_completed =
    runner_outcome child_completed Status.completed join_completed (some completed)
classify_observ_me_runner_result result_failed =
    runner_outcome child_failed Status.failed join_failed (some failed)
classify_observ_me_runner_result result_cancelled =
    runner_outcome child_cancelled Status.cancelled join_cancelled (some cancelled)
classify_observ_me_runner_result result_timeout =
    runner_outcome wait_timeout Status.active timeout none

abbrev pub abort_error : Str
abort_error = lit "AbortError"

abbrev pub is_abort_value : JsValue → Bool
is_abort_value (string name) = name == abort_error
is_abort_value v = false

abbrev pub is_abort_error : Thrown → Bool
is_abort_error (error_object name) = name == abort_error
is_abort_error (other_value (object fields)) = is_abort_value (property (lit "name") fields)
is_abort_error (other_value v) = false

unfoldable pub is_abort_like_runner_error : Thrown → (aborted : Bool) → Bool
is_abort_like_runner_error error aborted = aborted || is_abort_error error

unfoldable pub cancelled_by_caller : ObservMeRunnerPhase → ObservMeRunnerOutcome
unfolding runner_outcome
cancelled_by_caller phase_launch =
    runner_outcome caller_cancelled Status.cancelled join_cancelled (some cancelled)
cancelled_by_caller phase_wait = runner_outcome caller_cancelled Status.active join_cancelled none

unfoldable pub failed_by_runner : ObservMeRunnerPhase → ObservMeRunnerOutcome
unfolding runner_outcome
failed_by_runner phase_launch = runner_outcome launcher_failure Status.failed join_failed none
failed_by_runner phase_wait = runner_outcome transport_failure Status.active join_unknown none

unfoldable pub classify_observ_me_runner_outcome : ObservMeRunnerSettlement → ObservMeRunnerOutcome
unfolding classify_observ_me_runner_result is_abort_like_runner_error
classify_observ_me_runner_outcome (settled_result status) =
    classify_observ_me_runner_result (or_default status result_completed)
classify_observ_me_runner_outcome (settled_error phase error aborted) =
    if is_abort_like_runner_error error aborted
    then cancelled_by_caller phase
    else failed_by_runner phase

abbrev pub read_status : JsValue → Option ObservMeRunnerResultStatus
read_status (string status) =
    if status == lit "completed"
    then some result_completed
    else if status == lit "failed"
    then some result_failed
    else if status == lit "cancelled"
    then some result_cancelled
    else if status == lit "timeout"
    then some result_timeout
    else none
read_status v = none

unfoldable pub read_subagent_runner_result_status : JsValue → Option ObservMeRunnerResultStatus
read_subagent_runner_result_status (object fields) = read_status (property (lit "status") fields)
read_subagent_runner_result_status v = none

-- `typeof`
abbrev pub type_of : JsValue → Str
type_of undefined = lit "undefined"
type_of null = lit "object"
type_of callable = lit "function"
type_of (boolean b) = lit "boolean"
type_of (number n) = lit "number"
type_of (string s) = lit "string"
type_of (array _) = lit "object"
type_of (object _) = lit "object"

unfoldable pub error_class : Platform → Thrown → Str
error_class p (error_object name) = normalize_metric_label p name (lit "error")
error_class p (other_value v) = normalize_metric_label p (type_of v) (lit "error")

unfoldable pub retain_active_subagent_runner_outcome :
    Str → ObservMeRunnerOutcome → SubagentTelemetrySession → SubagentTelemetrySession
retain_active_subagent_runner_outcome child outcome s =
    if is_status Status.active (some outcome.child_status)
    then record_obs_agents_tree_state (update_child_status child Status.active s)
    else s

abbrev pub end_options : Str → AgentTerminalStatus → CompleteSubagentSpawnOptions
end_options child status = record {
  child_agent_id = some child;
  requested_status = some (child_status_name (child_status status));
  outcome = none;
}

unfoldable pub apply_terminal :
    Platform
    → (spawn_id child_agent_id : Str) → ObservMeRunnerOutcome
    → ℕ
    → SubagentTelemetrySession
    → Option AgentTerminalStatus
    → SubagentTelemetrySession
unfolding retain_active_subagent_runner_outcome
apply_terminal p spawn_id child outcome now s none =
    retain_active_subagent_runner_outcome child outcome s
apply_terminal p spawn_id child outcome now s (some status) =
    (complete_subagent_spawn p spawn_id (end_options child status) now s).1

unfoldable pub apply_subagent_runner_outcome :
    Platform
    → (spawn_id child_agent_id : Str) → ObservMeRunnerOutcome
    → ℕ
    → SubagentTelemetrySession
    → SubagentTelemetrySession
unfolding apply_terminal
apply_subagent_runner_outcome p spawn_id child outcome now s =
    apply_terminal p spawn_id child outcome now s outcome.terminal_child_status

abbrev pub is_launcher_failure : ObservMeRunnerOutcomeKind → Bool
is_launcher_failure launcher_failure = true
is_launcher_failure _ = false

-- `runSubagentWithObservability` after the runner: its promise gave a result, or it threw.
unfoldable pub runner_returned :
    Platform
    → (spawn_id child_agent_id : Str) → JsValue
    → ℕ
    → SubagentTelemetrySession
    → SubagentTelemetrySession
unfolding read_subagent_runner_result_status classify_observ_me_runner_outcome
    apply_subagent_runner_outcome
runner_returned p spawn_id child result now s =
    apply_subagent_runner_outcome p spawn_id child
      (classify_observ_me_runner_outcome
        (settled_result (read_subagent_runner_result_status result)))
      now (complete_subagent_launch spawn_id (some child) now s).1

unfoldable pub runner_threw :
    Platform
    → (spawn_id child_agent_id : Str) → Option ObservMeRunnerPhase
    → Thrown
    → (aborted : Bool) → ℕ
    → SubagentTelemetrySession
    → SubagentTelemetrySession
unfolding classify_observ_me_runner_outcome apply_subagent_runner_outcome error_class
runner_threw p spawn_id child phase error aborted now s =
    let outcome =
      classify_observ_me_runner_outcome
        (settled_error (or_default phase phase_wait) error aborted) in
    if is_launcher_failure outcome.kind
    then (fail_subagent_spawn p spawn_id (some child) (some (error_class p error)) now s).1
    else apply_subagent_runner_outcome p spawn_id child outcome now s
