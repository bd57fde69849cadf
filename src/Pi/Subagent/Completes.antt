-- ===== src/Pi/Subagent/Completes.antt =====
-- src/pi/subagent-spawn.ts: that a spawn whose child is running can be ended.
use observ_me.Prelude.{
  ℕ, ◌+◌, ◌≡◌, refl, inl, inr, ◌⊎◌, true, none, some, Str, str_equality, same_refl,
}
use observ_me.Util.JsMap.{get}
use observ_me.Pi.AgentTree.Status.{starting, active, is_agent_status_transition_allowed}
use observ_me.Pi.Subagent.Types.{
  SubagentTelemetrySession, SubagentSpawnState, AgentTerminalStatus, completed, failed, cancelled,
  success, Platform,
}
use observ_me.Pi.Subagent.Labels.{child_status, child_status_name, is_agent_terminal_status}
use observ_me.Pi.Subagent.Spawn.{
  CompleteSubagentSpawnOptions, complete_subagent_spawn, complete_resolved, resolved,
  resolve_completion_transition, resolve_status, validate_spawn_child_transition, current_status,
  allows,
}
use observ_me.Pi.Subagent.Ended.{ends, record_subagent_spawn_terminal-Closed}

abbrev pub ending : AgentTerminalStatus → CompleteSubagentSpawnOptions
ending status = record {
  child_agent_id = none;
  requested_status = some (child_status_name (child_status status));
  outcome = none;
}

is_agent_terminal_status-name :
    (status : AgentTerminalStatus)
    → is_agent_terminal_status (child_status_name (child_status status)) ≡ some status
unfolding is_agent_terminal_status
is_agent_terminal_status-name completed = refl
is_agent_terminal_status-name failed = refl
is_agent_terminal_status-name cancelled = refl

starting-allows :
    (status : AgentTerminalStatus) → allows (some starting) (child_status status) ≡ true
unfolding is_agent_status_transition_allowed
starting-allows completed = refl
starting-allows failed = refl
starting-allows cancelled = refl

active-allows : (status : AgentTerminalStatus) → allows (some active) (child_status status) ≡ true
unfolding is_agent_status_transition_allowed
active-allows completed = refl
active-allows failed = refl
active-allows cancelled = refl

running-allows :
    (child : Str) (s : SubagentTelemetrySession) (status : AgentTerminalStatus)
    → (current_status child s ≡ some starting) ⊎ (current_status child s ≡ some active)
    → allows (current_status child s) (child_status status) ≡ true
running-allows child s status (inl is_starting) = rw is_starting (starting-allows status)
running-allows child s status (inr is_active) = rw is_active (active-allows status)

resolve_completion_transition-running :
    (s : SubagentTelemetrySession) (state : SubagentSpawnState) (status : AgentTerminalStatus)
    → allows (current_status state.child_agent_id s) (child_status status) ≡ true
    → resolve_completion_transition s state (ending status) ≡ resolved state.child_agent_id status
unfolding resolve_completion_transition resolve_status validate_spawn_child_transition
resolve_completion_transition-running s state status allowed =
    rw (is_agent_terminal_status-name status, same_refl state.child_agent_id, allowed) refl

-- A live spawn whose child is starting or active can be ended as completed, failed or cancelled at any
-- time: the call succeeds, the spawn is gone, and its span has ended once more than before.
pub complete_subagent_spawn-running :
    (p : Platform) (id : Str) (status : AgentTerminalStatus) (now : ℕ)
    (s : SubagentTelemetrySession) (state : SubagentSpawnState)
    → get id s.active_subagent_spawns ≡ some state
    → (current_status state.child_agent_id s ≡ some starting)
      ⊎ (current_status state.child_agent_id s ≡ some active)
    → ((complete_subagent_spawn p id (ending status) now s).0 ≡ success)
      × (get id (complete_subagent_spawn p id (ending status) now s).1.active_subagent_spawns
          ≡ none)
      × (ends state.span (complete_subagent_spawn p id (ending status) now s).1.effects
          ≡ ends state.span s.effects + 1)
unfolding complete_subagent_spawn complete_resolved
complete_subagent_spawn-running p id status now s state found running =
    let accepted =
      resolve_completion_transition-running s state status
        (running-allows state.child_agent_id s status running) in
    let closed =
      record_subagent_spawn_terminal-Closed p id state state.child_agent_id status now s in
    rw (complete_subagent_spawn, found, accepted) (refl, closed.gone, closed.count)
