-- ===== src/Pi/Subagent/EndsOnce.antt =====
-- src/pi/subagent-spawn.ts: a spawn under any sequence of calls that end it.
use observ_me.Prelude.{
  ℕ, ◌+◌, ◌-◌, ◌≡◌, refl, ◌∙◌, inl, inr, ◌⊎◌, ◌==◌, true, not, Option, none, some, List, [], ◌∷◌,
  Str, str_equality, same_refl, arith, or_default, if_elim,
}
use observ_me.Prelude.JsNumber.{whole}
use observ_me.Util.JsMap.{get, put, get-put}
use observ_me.Pi.Subagent.Types.{
  SubagentTelemetrySession, SubagentSpawnState, SubagentTransitionResult, success, failure,
  spawn_not_found, Effect, recorded, subagent_spawn_duration_ms, Platform,
}
use observ_me.Pi.Subagent.Spans.{emit, update_child_status, record_obs_agents_tree_state}
use observ_me.Pi.Subagent.Spawn.{
  Transition, CompletionTransitionResult, refused, resolved, complete_launch_of, complete_resolved,
  fail_validated, launched, current_status, is_starting, record_subagent_spawn_duration,
  complete_subagent_launch, complete_subagent_spawn, fail_subagent_spawn,
  resolve_completion_transition, validate_launcher_failure_transition,
}
use observ_me.Pi.Subagent.Refused.{
  SpawnCall, launch_completed, spawn_completed, spawn_failed, spawn_call,
}
use observ_me.Pi.Subagent.Ended.{
  ends, ends-append, Closed, record_subagent_spawn_terminal-Closed, record_launch_failure-Closed,
}

-- Calls for one spawn, one after another, each with its time.
unfoldable pub run_calls :
    Platform → Str → List (SpawnCall × ℕ) → SubagentTelemetrySession → SubagentTelemetrySession
unfolding spawn_call
run_calls p id [] s = s
run_calls p id ((call, now) ∷ calls) s = run_calls p id calls (spawn_call p id call now s).1

abbrev duration_effect : SubagentSpawnState → ℕ → Effect
duration_effect state now =
    recorded subagent_spawn_duration_ms (whole (now - state.started_at_ms)) state.labels

-- The spawn is still there, with the span that it had, which has not ended meanwhile.
record Live (id : Str) (span : ℕ) (s t : SubagentTelemetrySession) : Type 0 where
  state : SubagentSpawnState
  there : get id t.active_subagent_spawns ≡ some state
  same_span : state.span ≡ span
  count : ends span t.effects ≡ ends span s.effects

abbrev Outcome : Str → ℕ → SubagentTelemetrySession → SubagentTelemetrySession → Type 0
Outcome id span s t = Live id span s t ⊎ Closed id span s t

record_subagent_spawn_duration-Live :
    (id : Str) (state : SubagentSpawnState) (now : ℕ) (s : SubagentTelemetrySession)
    → get id s.active_subagent_spawns ≡ some state
    → Live id state.span s (record_subagent_spawn_duration id state now s)
unfolding record_subagent_spawn_duration
record_subagent_spawn_duration-Live id state now s found =
    let completed : SubagentSpawnState = record state { launcher_completed = true } in
    let kept : Live id state.span s s = record {
      state = state;
      there = found;
      same_span = refl;
      count = refl;
    } in
    let timed : Live id state.span s (record (emit (duration_effect state now) s) {
      active_subagent_spawns = put id completed s.active_subagent_spawns;
    }) =
      record {
        state = completed;
        there = ground (arith, get-put id id completed s.active_subagent_spawns, same_refl id);
        same_span = refl;
        count = omega (arith, ends-append state.span s.effects (duration_effect state now ∷ []));
      } in
    if_elim state.launcher_completed (Live id state.span s) kept timed

launched-Live :
    (id : Str) (state : SubagentSpawnState) (now : ℕ) (s : SubagentTelemetrySession)
    → get id s.active_subagent_spawns ≡ some state
    → Live id state.span s (launched id state now s)
unfolding launched update_child_status record_obs_agents_tree_state
launched-Live id state now s found =
    let l = record_subagent_spawn_duration-Live id state now s found in
    record { state = l.state; there = l.there; same_span = l.same_span; count = l.count }

complete_launch_of-Live :
    (id child : Str) (now : ℕ) (s : SubagentTelemetrySession) (state : SubagentSpawnState)
    → get id s.active_subagent_spawns ≡ some state
    → Live id state.span s (complete_launch_of id child now s state).1
unfolding complete_launch_of
complete_launch_of-Live id child now s state found =
    let kept : Live id state.span s s = record {
      state = state;
      there = found;
      same_span = refl;
      count = refl;
    } in
    let P : Transition → Type 0 = λ t. Live id state.span s t.1 in
    if_elim (not (child == state.child_agent_id)) P kept (
      if_elim state.launcher_completed P kept (
        if_elim (not (is_starting (current_status child s))) P kept
          (launched-Live id state now s found)))

complete_resolved-Outcome :
    (p : Platform) (id : Str) (state : SubagentSpawnState) (now : ℕ) (s : SubagentTelemetrySession)
    (c : CompletionTransitionResult)
    → get id s.active_subagent_spawns ≡ some state
    → Outcome id state.span s (complete_resolved p id state now s c).1
unfolding complete_resolved
complete_resolved-Outcome p id state now s (refused result) found =
    inl (record { state = state; there = found; same_span = refl; count = refl })
complete_resolved-Outcome p id state now s (resolved child status) found =
    inr (record_subagent_spawn_terminal-Closed p id state child status now s)

fail_validated-Outcome :
    (p : Platform) (id : Str) (state : SubagentSpawnState) (child : Str) (e : Option Str) (now : ℕ)
    (s : SubagentTelemetrySession) (r : SubagentTransitionResult)
    → get id s.active_subagent_spawns ≡ some state
    → Outcome id state.span s (fail_validated p id state child e now s r).1
unfolding fail_validated
fail_validated-Outcome p id state child e now s (failure r) found =
    inl (record { state = state; there = found; same_span = refl; count = refl })
fail_validated-Outcome p id state child e now s success found =
    inr (record_launch_failure-Closed p id state child e now s)

spawn_call-Outcome :
    (p : Platform) (id : Str) (call : SpawnCall) (now : ℕ) (s : SubagentTelemetrySession)
    (state : SubagentSpawnState)
    → get id s.active_subagent_spawns ≡ some state
    → Outcome id state.span s (spawn_call p id call now s).1
unfolding spawn_call complete_subagent_launch complete_subagent_spawn fail_subagent_spawn
spawn_call-Outcome p id (launch_completed child) now s state found =
    rw (complete_subagent_launch, found)
      (inl (complete_launch_of-Live id (or_default child state.child_agent_id) now s state found))
spawn_call-Outcome p id (spawn_completed o) now s state found =
    rw (complete_subagent_spawn, found)
      (complete_resolved-Outcome p id state now s (resolve_completion_transition s state o) found)
spawn_call-Outcome p id (spawn_failed child e) now s state found =
    let c = or_default child state.child_agent_id in
    rw (fail_subagent_spawn, found)
      (fail_validated-Outcome p id state c e now s (validate_launcher_failure_transition s state c)
        found)

pub spawn_call-of_missing :
    (p : Platform) (id : Str) (call : SpawnCall) (now : ℕ) (s : SubagentTelemetrySession)
    → get id s.active_subagent_spawns ≡ none
    → spawn_call p id call now s ≡ (failure spawn_not_found, s)
unfolding spawn_call complete_subagent_launch complete_subagent_spawn fail_subagent_spawn
spawn_call-of_missing p id (launch_completed child) now s missing =
    rw (complete_subagent_launch, missing) refl
spawn_call-of_missing p id (spawn_completed o) now s missing =
    rw (complete_subagent_spawn, missing) refl
spawn_call-of_missing p id (spawn_failed child e) now s missing =
    rw (fail_subagent_spawn, missing) refl

-- Calls for a spawn that is gone change nothing.
run_calls-of_missing :
    (p : Platform) (id : Str) (calls : List (SpawnCall × ℕ)) (s : SubagentTelemetrySession)
    → get id s.active_subagent_spawns ≡ none
    → run_calls p id calls s ≡ s
unfolding run_calls
run_calls-of_missing p id [] s missing = refl
run_calls-of_missing p id ((call, now) ∷ calls) s missing =
    rw (spawn_call-of_missing p id call now s missing) (run_calls-of_missing p id calls s missing)

abbrev EndsFrom : Str → ℕ → ℕ → SubagentTelemetrySession → Type 0
EndsFrom id span n t =
    ((live : SubagentSpawnState) × (get id t.active_subagent_spawns ≡ some live)
      × (ends span t.effects ≡ n))
    ⊎ ((get id t.active_subagent_spawns ≡ none) × (ends span t.effects ≡ n + 1))

run_calls-EndsFrom :
    (p : Platform) (id : Str) (calls : List (SpawnCall × ℕ)) (span n : ℕ)
    (s : SubagentTelemetrySession) (state : SubagentSpawnState)
    → get id s.active_subagent_spawns ≡ some state
    → state.span ≡ span
    → ends span s.effects ≡ n
    → EndsFrom id span n (run_calls p id calls s)
unfolding run_calls
run_calls-EndsFrom p id [] span n s state found same count = inl (state, found, count)
run_calls-EndsFrom p id ((call, now) ∷ calls) span n s state found same count =
    let t = (spawn_call p id call now s).1 in
    elim (spawn_call-Outcome p id call now s state found) [
      | inl l ↦
          let kept : ends span t.effects ≡ ends span s.effects = rw same at l.count in
          run_calls-EndsFrom p id calls span n t l.state l.there (l.same_span ∙ same) (kept ∙ count)
      | inr c ↦
          let ended : ends span t.effects ≡ ends span s.effects + 1 = rw same at c.count in
          rw (run_calls-of_missing p id calls t c.gone) (inr (c.gone, omega (arith, ended, count)))
    ]

-- Under any sequence of calls that complete its launch, end it or fail it, the span of a live spawn
-- ends at most once: as long as the spawn is there its span has not ended, and if it is gone its span
-- has ended exactly once.
pub run_calls-ends_once :
    (p : Platform) (id : Str) (calls : List (SpawnCall × ℕ)) (s : SubagentTelemetrySession)
    (state : SubagentSpawnState)
    → get id s.active_subagent_spawns ≡ some state
    → ((live : SubagentSpawnState) × (get id (run_calls p id calls s).active_subagent_spawns
          ≡ some live)
        × (ends state.span (run_calls p id calls s).effects ≡ ends state.span s.effects))
      ⊎ ((get id (run_calls p id calls s).active_subagent_spawns ≡ none)
          × (ends state.span (run_calls p id calls s).effects ≡ ends state.span s.effects + 1))
run_calls-ends_once p id calls s state found =
    run_calls-EndsFrom p id calls state.span (ends state.span s.effects) s state found refl refl
