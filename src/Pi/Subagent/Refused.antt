-- ===== src/Pi/Subagent/Refused.antt =====
-- src/pi/subagent-spawn.ts: the ends of launches, spawns, waits and joins as steps of one machine, and
-- what a refused step does.
use observ_me.Prelude.{
  ℕ, ◌≡◌, refl, inl, inr, Option, Str, str_equality, arith, or_default, Option-cases,
}
use observ_me.Util.JsMap.{get}
use observ_me.Commands.AgentsRuntime.{AgentWaitJoinKind}
use observ_me.Pi.Subagent.Types.{
  SubagentTelemetrySession, SubagentSpawnState, AgentWaitJoinState, SubagentTransitionResult,
  success, failure, SubagentTransitionFailureReason, Platform,
}
use observ_me.Pi.Subagent.Spawn.{
  Transition, CompleteSubagentSpawnOptions, CompletionTransitionResult, refused, resolved,
  complete_resolved, fail_validated, complete_launch_of, complete_subagent_launch,
  complete_subagent_spawn, fail_subagent_spawn, resolve_completion_transition,
  validate_launcher_failure_transition,
}
use observ_me.Pi.Subagent.WaitJoin.{
  AgentWaitJoinOptions, end_wait_join_span, end_validated, wait_join_registry,
  validate_wait_join_identity, validate_wait_join_transition, resolve_wait_join_completion_options,
}

-- The calls that end a launch or a spawn, and with those on waits and joins all that end something.
pub data SpawnCall : Type 0 where
  launch_completed : (child_agent_id : Option Str) → SpawnCall
  spawn_completed : CompleteSubagentSpawnOptions → SpawnCall
  spawn_failed : (child_agent_id error_class : Option Str) → SpawnCall

pub data EndCall : Type 0 where
  on_spawn : SpawnCall → EndCall
  on_wait_join : AgentWaitJoinKind → AgentWaitJoinOptions → EndCall

unfoldable pub spawn_call : Platform → Str → SpawnCall → ℕ → SubagentTelemetrySession → Transition
unfolding complete_subagent_launch complete_subagent_spawn fail_subagent_spawn
spawn_call p id (launch_completed child) now s = complete_subagent_launch id child now s
spawn_call p id (spawn_completed o) now s = complete_subagent_spawn p id o now s
spawn_call p id (spawn_failed child error_class) now s =
    fail_subagent_spawn p id child error_class now s

unfoldable pub end_call : Platform → Str → EndCall → ℕ → SubagentTelemetrySession → Transition
unfolding spawn_call end_wait_join_span
end_call p id (on_spawn call) now s = spawn_call p id call now s
end_call p id (on_wait_join kind o) now s = end_wait_join_span p id o kind now s

-- Whatever the state, a step that is refused gives the session back.
abbrev pub Unchanged : SubagentTelemetrySession → Transition → Type 0
Unchanged s t = (reason : SubagentTransitionFailureReason) → t.0 ≡ failure reason → t.1 ≡ s

complete_launch_of-Unchanged :
    (id child : Str) (now : ℕ) (s : SubagentTelemetrySession) (state : SubagentSpawnState)
    → Unchanged s (complete_launch_of id child now s state)
unfolding complete_launch_of
complete_launch_of-Unchanged id child now s state reason h = ground arith

complete_resolved-Unchanged :
    (p : Platform) (id : Str) (state : SubagentSpawnState) (now : ℕ) (s : SubagentTelemetrySession)
    (c : CompletionTransitionResult)
    → Unchanged s (complete_resolved p id state now s c)
unfolding complete_resolved
complete_resolved-Unchanged p id state now s (refused result) reason h = refl
complete_resolved-Unchanged p id state now s (resolved child status) reason h = cc

fail_validated-Unchanged :
    (p : Platform) (id : Str) (state : SubagentSpawnState) (child : Str) (e : Option Str) (now : ℕ)
    (s : SubagentTelemetrySession) (r : SubagentTransitionResult)
    → Unchanged s (fail_validated p id state child e now s r)
unfolding fail_validated
fail_validated-Unchanged p id state child e now s success reason h = cc
fail_validated-Unchanged p id state child e now s (failure r) reason h = refl

end_validated-Unchanged :
    (p : Platform) (id : Str) (state : AgentWaitJoinState) (o : AgentWaitJoinOptions)
    (kind : AgentWaitJoinKind) (now : ℕ) (s : SubagentTelemetrySession)
    (identity transition : SubagentTransitionResult)
    → Unchanged s (end_validated p id state o kind now s identity transition)
unfolding end_validated
end_validated-Unchanged p id state o kind now s (failure r) t reason h = refl
end_validated-Unchanged p id state o kind now s success (failure r) reason h = refl
end_validated-Unchanged p id state o kind now s success success reason h = cc

spawn_call-Unchanged :
    (p : Platform) (id : Str) (call : SpawnCall) (now : ℕ) (s : SubagentTelemetrySession)
    → Unchanged s (spawn_call p id call now s)
unfolding spawn_call complete_subagent_launch complete_subagent_spawn fail_subagent_spawn
spawn_call-Unchanged p id (launch_completed child) now s reason h =
    elim (Option-cases (get id s.active_subagent_spawns)) [
      | inl missing ↦ rw (complete_subagent_launch, missing) refl
      | inr (state, found) ↦
          rw (complete_subagent_launch, found)
            (complete_launch_of-Unchanged id (or_default child state.child_agent_id) now s state
              reason (rw (complete_subagent_launch, found) at h))
    ]
spawn_call-Unchanged p id (spawn_completed o) now s reason h =
    elim (Option-cases (get id s.active_subagent_spawns)) [
      | inl missing ↦ rw (complete_subagent_spawn, missing) refl
      | inr (state, found) ↦
          rw (complete_subagent_spawn, found)
            (complete_resolved-Unchanged p id state now s (resolve_completion_transition s state o)
              reason (rw (complete_subagent_spawn, found) at h))
    ]
spawn_call-Unchanged p id (spawn_failed child e) now s reason h =
    elim (Option-cases (get id s.active_subagent_spawns)) [
      | inl missing ↦ rw (fail_subagent_spawn, missing) refl
      | inr (state, found) ↦
          let c = or_default child state.child_agent_id in
          rw (fail_subagent_spawn, found)
            (fail_validated-Unchanged p id state c e now s
              (validate_launcher_failure_transition s state c) reason
              (rw (fail_subagent_spawn, found) at h))
    ]

-- A call that completes a launch, ends a spawn, a wait or a join, and is refused, changes nothing:
-- the session, with all that it has said so far, is what it was.
pub end_call-Unchanged :
    (p : Platform) (id : Str) (call : EndCall) (now : ℕ) (s : SubagentTelemetrySession)
    (reason : SubagentTransitionFailureReason)
    → (end_call p id call now s).0 ≡ failure reason
    → (end_call p id call now s).1 ≡ s
unfolding end_call end_wait_join_span
end_call-Unchanged p id (on_spawn call) now s reason h =
    spawn_call-Unchanged p id call now s reason h
end_call-Unchanged p id (on_wait_join kind o) now s reason h =
    elim (Option-cases (get id (wait_join_registry kind s))) [
      | inl missing ↦ rw (end_wait_join_span, missing) refl
      | inr (state, found) ↦
          let c = resolve_wait_join_completion_options state o in
          rw (end_wait_join_span, found)
            (end_validated-Unchanged p id state c kind now s
              (validate_wait_join_identity state id o kind) (validate_wait_join_transition s c)
              reason (rw (end_wait_join_span, found) at h))
    ]
