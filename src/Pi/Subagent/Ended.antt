-- ===== src/Pi/Subagent/Ended.antt =====
-- src/pi/subagent-spawn.ts: how often the span of a spawn ends.
use observ_me.Prelude.{
  ℕ, ◌+◌, ◌≡◌, refl, ap, ◌∙◌, inl, inr, ◌==◌, nat_eq, Bool, true, false, Option, none, List, [],
  ◌∷◌, ◌++◌, Str, str_equality, arith, same_refl, if◌then◌else◌, Bool-cases, Option-cases,
}
use observ_me.Util.JsMap.{JsMap, get, delete, get-delete}
use observ_me.Pi.Lineage.{truthy}
use observ_me.Pi.AgentTree.Status
use observ_me.Pi.TerminalOutcome.{SpanStatusCode}
use observ_me.Pi.Subagent.Types.{
  SubagentTelemetrySession, SubagentSpawnState, child_agent_failures,
  parent_recovered_from_child_failure, AgentTerminalStatus, completed, failed, cancelled,
  AttributeMap, SubagentCounter, Labels, Effect, span_started, attributes_set, status_set,
  event_added, span_ended, active_span_added, active_span_removed, counted, recorded, logged,
  telemetry_dropped, Platform, Severity,
}
use observ_me.Pi.Subagent.Accounting.{record_child_failure_accounting}
use observ_me.Pi.Subagent.Labels.{child_failure_metric_labels, child_status}
use observ_me.Pi.Subagent.Spans.{
  emit, end_operation, record_active_span_end, end_subagent_span, emit_subagent_log,
  update_child_status, record_obs_agents_tree_state,
}
use observ_me.Pi.Subagent.Spawn.{
  count_if, account_child_failure, record_child_failure_completion, record_subagent_spawn_duration,
  close_spawn, child_finished, record_subagent_spawn_terminal, record_launch_failure,
}

-- How many effects end the span.
abbrev pub ends : ℕ → List Effect → ℕ
ends span [] = 0
ends span (span_ended n ∷ effects) = (if n == span then 1 else 0) + ends span effects
ends span (e ∷ effects) = ends span effects

pub ends-append : (span : ℕ) (a b : List Effect) → ends span (a ++ b) ≡ ends span a + ends span b
ends-append span [] b = omega arith
ends-append span (span_started n name parent m ∷ a) b = ends-append span a b
ends-append span (attributes_set n m ∷ a) b = ends-append span a b
ends-append span (status_set n code message ∷ a) b = ends-append span a b
ends-append span (event_added n name m ∷ a) b = ends-append span a b
ends-append span (span_ended n ∷ a) b = omega (arith, ends-append span a b)
ends-append span (active_span_added operation ∷ a) b = ends-append span a b
ends-append span (active_span_removed operation ∷ a) b = ends-append span a b
ends-append span (counted counter labels ∷ a) b = ends-append span a b
ends-append span (recorded histogram value labels ∷ a) b = ends-append span a b
ends-append span (logged severity body m ∷ a) b = ends-append span a b
ends-append span (telemetry_dropped reason operation ∷ a) b = ends-append span a b

-- From one session to the next: the registry of spawns is the same, and the ends of the span are `n`
-- more.
pub record Ends (n span : ℕ) (s t : SubagentTelemetrySession) : Type 0 where
  pub spawns : t.active_subagent_spawns ≡ s.active_subagent_spawns
  pub count : ends span t.effects ≡ ends span s.effects + n

pub Ends-then :
    {m n k span : ℕ} {s t u : SubagentTelemetrySession}
    → m + n ≡ k
    → Ends m span s t
    → Ends n span t u
    → Ends k span s u
Ends-then e a b = record {
  spawns = b.spawns ∙ a.spawns;
  count = omega (arith, e, a.count, b.count);
}

pub emit-Ends :
    (span : ℕ) (e : Effect) (s : SubagentTelemetrySession)
    → Ends (ends span (e ∷ [])) span s (emit e s)
emit-Ends span e s = record { spawns = refl; count = ends-append span s.effects (e ∷ []) }

count_if-Ends :
    (span : ℕ) (b : Bool) (c : SubagentCounter) (labels : Labels) (s : SubagentTelemetrySession)
    → Ends 0 span s (count_if b c labels s)
count_if-Ends span true c labels s = emit-Ends span (counted c labels) s
count_if-Ends span false c labels s = record { spawns = refl; count = omega arith }

pub account_child_failure-Ends :
    (p : Platform) (span : ℕ) (child : Str) (confirmed : Bool) (s : SubagentTelemetrySession)
    → Ends 0 span s (account_child_failure p child confirmed s)
unfolding account_child_failure
account_child_failure-Ends p span child confirmed s =
    let (c, ledger) =
      record_child_failure_accounting p.digest s.max_active_subagent_spawns child confirmed
        s.child_failures in
    let labels = child_failure_metric_labels s in
    let s1 : SubagentTelemetrySession = record s { child_failures = ledger } in
    let s2 = count_if c.failure child_agent_failures labels s1 in
    let kept : Ends 0 span s s1 = record { spawns = refl; count = omega arith } in
    Ends-then refl
      (Ends-then refl kept (count_if-Ends span c.failure child_agent_failures labels s1))
      (count_if-Ends span c.recovery parent_recovered_from_child_failure labels s2)

pub record_active_span_end-Ends :
    (span n : ℕ) (s : SubagentTelemetrySession) → Ends 0 span s (record_active_span_end n s)
unfolding record_active_span_end
record_active_span_end-Ends span n s =
    elim (Option-cases (truthy (get n s.active_span_operations))) [
      | inl none_there ↦
          rw (end_operation, none_there) (record { spawns = refl; count = omega arith })
      | inr (operation, there) ↦
          rw (end_operation, there)
            (record {
              spawns = refl;
              count = ends-append span s.effects (active_span_removed operation ∷ []);
            })
    ]

pub end_subagent_span-Ends :
    (span : ℕ) (s : SubagentTelemetrySession) → Ends 1 span s (end_subagent_span span s)
unfolding end_subagent_span
end_subagent_span-Ends span s =
    let ended = record_active_span_end span s in
    let one : ends span (span_ended span ∷ []) ≡ 1 = ground (arith, same_refl span) in
    Ends-then (ap (λ (n : ℕ). 0 + n) one) (record_active_span_end-Ends span span s)
      (emit-Ends span (span_ended span) ended)

pub emit_subagent_log-Ends :
    (span : ℕ) (name : Str) (m : AttributeMap) (severity : Severity) (s : SubagentTelemetrySession)
    → Ends 0 span s (emit_subagent_log name m severity s)
unfolding emit_subagent_log
emit_subagent_log-Ends span name m severity s = record {
  spawns = refl;
  count = ends-append span s.effects _;
}

child_finished-Ends :
    (p : Platform) (span : ℕ) (child : Str) (status : AgentTerminalStatus)
    (s : SubagentTelemetrySession)
    → Ends 0 span s (child_finished p child status s)
unfolding child_finished record_child_failure_completion update_child_status
    record_obs_agents_tree_state
child_finished-Ends p span child completed s = record { spawns = refl; count = omega arith }
child_finished-Ends p span child cancelled s = record { spawns = refl; count = omega arith }
child_finished-Ends p span child failed s =
    let told =
      account_child_failure-Ends p span child false
        (update_child_status child (child_status failed) s) in
    record { spawns = told.spawns; count = told.count }

-- Closing a spawn ends its span once and takes it out of the registry.
pub record Closed (id : Str) (span : ℕ) (s t : SubagentTelemetrySession) : Type 0 where
  pub gone : get id t.active_subagent_spawns ≡ none
  pub count : ends span t.effects ≡ ends span s.effects + 1

deleted-none : {A : Type 0} (id : Str) (m : JsMap Str A) → get id (delete id m) ≡ none
deleted-none id m = ground (arith, get-delete id id m, same_refl id)

record_subagent_spawn_duration-count :
    (span : ℕ) (id : Str) (state : SubagentSpawnState) (now : ℕ) (s : SubagentTelemetrySession)
    → ends span (record_subagent_spawn_duration id state now s).effects ≡ ends span s.effects
unfolding record_subagent_spawn_duration
record_subagent_spawn_duration-count span id state now s =
    elim (Bool-cases state.launcher_completed) [
      | inl done ↦ rw done refl
      | inr waiting ↦ rw waiting (omega (arith, ends-append span s.effects _))
    ]

pub close_spawn-Closed :
    (id : Str) (state : SubagentSpawnState) (name : Str) (status : SpanStatusCode × Option Str)
    (m : AttributeMap) (now : ℕ) (s : SubagentTelemetrySession)
    → Closed id state.span s (close_spawn id state name status m now s)
unfolding close_spawn
close_spawn-Closed id state name status m now s =
    let timed = record_subagent_spawn_duration id state now s in
    let s1 = emit (attributes_set state.span m) timed in
    let s2 = emit (status_set state.span status.0 status.1) s1 in
    let s3 = emit (event_added state.span name m) s2 in
    let counted =
      Ends-then refl
        (Ends-then refl
          (Ends-then refl (emit-Ends state.span (attributes_set state.span m) timed)
            (emit-Ends state.span (status_set state.span status.0 status.1) s1))
          (emit-Ends state.span (event_added state.span name m) s2))
        (end_subagent_span-Ends state.span s3) in
    record {
      gone = deleted-none id _;
      count =
          omega
            (arith, counted.count, record_subagent_spawn_duration-count state.span id state now s);
    }

Closed-before :
    {id : Str} {span : ℕ} {s t u : SubagentTelemetrySession}
    → Ends 0 span s t
    → Closed id span t u
    → Closed id span s u
Closed-before quiet closed = record {
  gone = closed.gone;
  count = omega (arith, quiet.count, closed.count);
}

Closed-after :
    {id : Str} {span : ℕ} {s t u : SubagentTelemetrySession}
    → Closed id span s t
    → Ends 0 span t u
    → Closed id span s u
Closed-after {id} closed quiet = record {
  gone = ap (get id) quiet.spawns ∙ closed.gone;
  count = omega (arith, quiet.count, closed.count);
}

pub record_subagent_spawn_terminal-Closed :
    (p : Platform) (id : Str) (state : SubagentSpawnState) (child : Str)
    (status : AgentTerminalStatus) (now : ℕ) (s : SubagentTelemetrySession)
    → Closed id state.span s (record_subagent_spawn_terminal p id state child status now s)
unfolding record_subagent_spawn_terminal
record_subagent_spawn_terminal-Closed p id state child status now s =
    Closed-after
      (Closed-before (child_finished-Ends p state.span child status s)
        (close_spawn-Closed id state _ _ _ now (child_finished p child status s)))
      (emit_subagent_log-Ends state.span _ _ _ _)

pub record_launch_failure-Closed :
    (p : Platform) (id : Str) (state : SubagentSpawnState) (child : Str) (error_class : Option Str)
    (now : ℕ) (s : SubagentTelemetrySession)
    → Closed id state.span s (record_launch_failure p id state child error_class now s)
unfolding record_launch_failure record_obs_agents_tree_state update_child_status
record_launch_failure-Closed p id state child error_class now s =
    let closed =
      close_spawn-Closed id state _ _ _ now
        (record_obs_agents_tree_state (update_child_status child Status.failed s)) in
    Closed-after
      (Closed-after (record { gone = closed.gone; count = closed.count })
        (emit-Ends state.span _ _))
      (emit_subagent_log-Ends state.span _ _ _ _)
