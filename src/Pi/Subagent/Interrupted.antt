-- ===== src/Pi/Subagent/Interrupted.antt =====
-- src/pi/subagent-spawn.ts: what the interruption of a session leaves in its registries.
use mathlib.Core.Path.{subst}
use observ_me.Prelude.{
  ℕ, ◌≡◌, refl, sym, ap, ◌∙◌, inl, inr, nat_eq, Bool, true, false, Option, none, some, [], ◌∷◌, Str,
  str_equality, same_refl, arith, Bool-cases, Option-cases,
}
use observ_me.Util.JsMap.{JsMap, get, put, delete, IsUnique, delete-head, delete-of_missing}
use observ_me.Commands.AgentsRuntime.{AgentWaitJoinKind, wait, join}
use observ_me.Pi.Lineage.{truthy}
use observ_me.Pi.AgentTree.Status.{AgentChildStatus}
use observ_me.Pi.Subagent.Types.{
  SubagentTelemetrySession, SubagentSpawnState, AgentWaitJoinState, AgentTerminalStatus, completed,
  failed, cancelled, SubagentCounter, Labels, child_agent_failures,
  parent_recovered_from_child_failure, Platform,
}
use observ_me.Pi.Subagent.Accounting.{record_child_failure_accounting}
use observ_me.Pi.Subagent.Labels.{child_failure_metric_labels, is_status}
use observ_me.Pi.Subagent.Spans.{
  end_operation, record_active_span_end, end_subagent_span, emit_subagent_log, update_child_status,
  record_obs_agents_tree_state,
}
use observ_me.Pi.Subagent.Spawn.{
  count_if, account_child_failure, record_child_failure_completion, record_subagent_spawn_duration,
  close_spawn, child_finished, record_subagent_spawn_terminal,
}
use observ_me.Pi.Subagent.WaitJoin.{
  AgentWaitJoinOptions, update_child, set_error_status, wait_join_registry, account_join,
  record_child_join_accounting, complete_wait_join_span, cancel_active_wait_join, set_registry,
}
use observ_me.Pi.Subagent.Start.{
  interrupt_spawns, interrupt_wait_joins, interrupt_active_subagent_operations,
}

-- The three registries are the same.
record Same (s t : SubagentTelemetrySession) : Type 0 where
  spawns : t.active_subagent_spawns ≡ s.active_subagent_spawns
  waits : t.active_agent_waits ≡ s.active_agent_waits
  joins : t.active_agent_joins ≡ s.active_agent_joins

Same-refl : (s : SubagentTelemetrySession) → Same s s
Same-refl s = record { spawns = refl; waits = refl; joins = refl }

Same-then : {s t u : SubagentTelemetrySession} → Same s t → Same t u → Same s u
Same-then a b = record {
  spawns = b.spawns ∙ a.spawns;
  waits = b.waits ∙ a.waits;
  joins = b.joins ∙ a.joins;
}

count_if-Same :
    (b : Bool) (c : SubagentCounter) (labels : Labels) (s : SubagentTelemetrySession)
    → Same s (count_if b c labels s)
count_if-Same true c labels s = record { spawns = refl; waits = refl; joins = refl }
count_if-Same false c labels s = Same-refl s

account_child_failure-Same :
    (p : Platform) (child : Str) (confirmed : Bool) (s : SubagentTelemetrySession)
    → Same s (account_child_failure p child confirmed s)
unfolding account_child_failure
account_child_failure-Same p child confirmed s =
    let (c, ledger) =
      record_child_failure_accounting p.digest s.max_active_subagent_spawns child confirmed
        s.child_failures in
    let labels = child_failure_metric_labels s in
    let s1 : SubagentTelemetrySession = record s { child_failures = ledger } in
    let kept : Same s s1 = record { spawns = refl; waits = refl; joins = refl } in
    Same-then (Same-then kept (count_if-Same c.failure child_agent_failures labels s1)) (
      count_if-Same c.recovery parent_recovered_from_child_failure labels
        (count_if c.failure child_agent_failures labels s1))

end_subagent_span-Same :
    (span : ℕ) (s : SubagentTelemetrySession) → Same s (end_subagent_span span s)
unfolding end_subagent_span record_active_span_end
end_subagent_span-Same span s = elim (Option-cases (truthy (get span s.active_span_operations))) [
  | inl missing ↦ rw (end_operation, missing) (record { spawns = refl; waits = refl; joins = refl })
  | inr (operation, there) ↦
      rw (end_operation, there) (record { spawns = refl; waits = refl; joins = refl })
]

child_finished-Same :
    (p : Platform) (child : Str) (status : AgentTerminalStatus) (s : SubagentTelemetrySession)
    → Same s (child_finished p child status s)
unfolding child_finished record_child_failure_completion update_child_status
    record_obs_agents_tree_state
child_finished-Same p child completed s = record { spawns = refl; waits = refl; joins = refl }
child_finished-Same p child cancelled s = record { spawns = refl; waits = refl; joins = refl }
child_finished-Same p child failed s =
    let a =
      account_child_failure-Same p child false
        (update_child_status child AgentChildStatus.failed s) in
    record { spawns = a.spawns; waits = a.waits; joins = a.joins }

-- The first spawn is gone, all else is there.
record Popped (rest : JsMap Str SubagentSpawnState) (s t : SubagentTelemetrySession) : Type 0 where
  spawns : t.active_subagent_spawns ≡ rest
  waits : t.active_agent_waits ≡ s.active_agent_waits
  joins : t.active_agent_joins ≡ s.active_agent_joins

delete-put_head :
    (id : Str) (v w : SubagentSpawnState) (rest : JsMap Str SubagentSpawnState)
    → IsUnique ((id, v) ∷ rest)
    → delete id (put id w ((id, v) ∷ rest)) ≡ rest
delete-put_head id v w rest u = ground (arith, same_refl id, delete-of_missing id rest u.0)

timed-Popped :
    (id : Str) (state v : SubagentSpawnState) (now : ℕ) (rest : JsMap Str SubagentSpawnState)
    (s : SubagentTelemetrySession)
    → s.active_subagent_spawns ≡ (id, v) ∷ rest
    → IsUnique ((id, v) ∷ rest)
    → (delete id (record_subagent_spawn_duration id state now s).active_subagent_spawns ≡ rest)
      × ((record_subagent_spawn_duration id state now s).active_agent_waits ≡ s.active_agent_waits)
      × ((record_subagent_spawn_duration id state now s).active_agent_joins ≡ s.active_agent_joins)
unfolding record_subagent_spawn_duration
timed-Popped id state v now rest s first u = elim (Bool-cases state.launcher_completed) [
  | inl done ↦ rw (done, first) (delete-head id v rest u, refl, refl)
  | inr pending ↦ rw (pending, first) (delete-put_head id v _ rest u, refl, refl)
]

record_subagent_spawn_terminal-Popped :
    (p : Platform) (id : Str) (state : SubagentSpawnState) (child : Str)
    (status : AgentTerminalStatus) (now : ℕ) (rest : JsMap Str SubagentSpawnState)
    (s : SubagentTelemetrySession)
    → s.active_subagent_spawns ≡ (id, state) ∷ rest
    → IsUnique ((id, state) ∷ rest)
    → Popped rest s (record_subagent_spawn_terminal p id state child status now s)
unfolding record_subagent_spawn_terminal close_spawn emit_subagent_log
record_subagent_spawn_terminal-Popped p id state child status now rest s first u =
    let finished = child_finished-Same p child status s in
    let timed =
      timed-Popped id state state now rest (child_finished p child status s)
        (finished.spawns ∙ first) u in
    let ended = end_subagent_span-Same state.span _ in
    record {
      spawns = ap (delete id) ended.spawns ∙ timed.0;
      waits = ended.waits ∙ timed.1 ∙ finished.waits;
      joins = ended.joins ∙ timed.2 ∙ finished.joins;
    }

interrupt_spawns-empties :
    (p : Platform) (now : ℕ) (spawns : JsMap Str SubagentSpawnState) (s : SubagentTelemetrySession)
    → s.active_subagent_spawns ≡ spawns
    → IsUnique spawns
    → Popped [] s (interrupt_spawns p now spawns s)
unfolding interrupt_spawns
interrupt_spawns-empties p now [] s same u = record { spawns = same; waits = refl; joins = refl }
interrupt_spawns-empties p now ((id, state) ∷ rest) s same u =
    let first =
      record_subagent_spawn_terminal-Popped p id state state.child_agent_id cancelled now rest s
        same u in
    let others =
      interrupt_spawns-empties p now rest
        (record_subagent_spawn_terminal p id state state.child_agent_id cancelled now s)
        first.spawns u.1 in
    record {
      spawns = others.spawns;
      waits = others.waits ∙ first.waits;
      joins = others.joins ∙ first.joins;
    }

update_child-Same :
    (child : Option Str) (status : Option AgentChildStatus) (s : SubagentTelemetrySession)
    → Same s (update_child child status s)
unfolding update_child_status
update_child-Same none status s = Same-refl s
update_child-Same (some child) none s = Same-refl s
update_child-Same (some child) (some status) s = record {
  spawns = refl;
  waits = refl;
  joins = refl;
}

set_error_status-Same :
    (span : ℕ) (message : Option Str) (s : SubagentTelemetrySession)
    → Same s (set_error_status span message s)
set_error_status-Same span none s = Same-refl s
set_error_status-Same span (some message) s = record { spawns = refl; waits = refl; joins = refl }

account_join-Same :
    (kind : AgentWaitJoinKind) (p : Platform) (o : AgentWaitJoinOptions)
    (s : SubagentTelemetrySession)
    → Same s (account_join kind p o s)
unfolding account_join record_child_join_accounting
account_join-Same wait p o s = Same-refl s
account_join-Same join p o s = elim (Option-cases (truthy o.child_agent_id)) [
  | inl missing ↦ rw (record_child_join_accounting, missing) (Same-refl s)
  | inr (child, there) ↦ elim (Bool-cases (is_status AgentChildStatus.failed o.child_status)) [
    | inl failing ↦
        rw (record_child_join_accounting, there, failing) (account_child_failure-Same p child _ s)
    | inr other ↦ rw (record_child_join_accounting, there, other) (Same-refl s)
  ]
]

-- The session but for the registry of the kind, which is `m`.
abbrev Replaced :
    AgentWaitJoinKind
    → JsMap Str AgentWaitJoinState
    → SubagentTelemetrySession
    → SubagentTelemetrySession
    → Type 0
Replaced kind m s t = Same (set_registry kind m s) t

complete_wait_join_span-Replaced :
    (p : Platform) (id : Str) (state : AgentWaitJoinState) (o : AgentWaitJoinOptions)
    (kind : AgentWaitJoinKind) (now : ℕ) (s : SubagentTelemetrySession)
    → Replaced kind
        (delete id (wait_join_registry kind s))
        s
        (complete_wait_join_span p id state o kind now s)
unfolding complete_wait_join_span emit_subagent_log record_obs_agents_tree_state wait_join_registry
complete_wait_join_span-Replaced p id state o wait now s =
    let updated = update_child-Same (truthy o.child_agent_id) o.child_status s in
    let marked = set_error_status-Same state.span _ _ in
    let ended = end_subagent_span-Same state.span _ in
    record {
      spawns = ended.spawns ∙ marked.spawns ∙ updated.spawns;
      waits = ap (delete id) (ended.waits ∙ marked.waits ∙ updated.waits);
      joins = ended.joins ∙ marked.joins ∙ updated.joins;
    }
complete_wait_join_span-Replaced p id state o join now s =
    let updated = update_child-Same (truthy o.child_agent_id) o.child_status s in
    let marked = set_error_status-Same state.span _ _ in
    let ended = end_subagent_span-Same state.span _ in
    let accounted = account_join-Same join p o _ in
    record {
      spawns = accounted.spawns ∙ ended.spawns ∙ marked.spawns ∙ updated.spawns;
      waits = accounted.waits ∙ ended.waits ∙ marked.waits ∙ updated.waits;
      joins = accounted.joins ∙ ap (delete id) (ended.joins ∙ marked.joins ∙ updated.joins);
    }

cancel_active_wait_join-Replaced :
    (p : Platform) (id : Str) (state : AgentWaitJoinState) (kind : AgentWaitJoinKind) (now : ℕ)
    (s : SubagentTelemetrySession)
    → Replaced kind
        (delete id (wait_join_registry kind s))
        s
        (cancel_active_wait_join p id state kind now s)
unfolding cancel_active_wait_join
cancel_active_wait_join-Replaced p id state kind now s =
    complete_wait_join_span-Replaced p id state _ kind now s

interrupt_waits-empties :
    (p : Platform) (now : ℕ) (states : JsMap Str AgentWaitJoinState) (s : SubagentTelemetrySession)
    → s.active_agent_waits ≡ states
    → IsUnique states
    → Replaced wait [] s (interrupt_wait_joins p wait now states s)
unfolding interrupt_wait_joins wait_join_registry
interrupt_waits-empties p now [] s same u = record { spawns = refl; waits = same; joins = refl }
interrupt_waits-empties p now ((id, state) ∷ rest) s same u =
    let t = cancel_active_wait_join p id state wait now s in
    let first = cancel_active_wait_join-Replaced p id state wait now s in
    let left : t.active_agent_waits ≡ rest =
      first.waits ∙ ap (delete id) same ∙ delete-head id state rest u in
    let others = interrupt_waits-empties p now rest t left u.1 in
    record {
      spawns = others.spawns ∙ first.spawns;
      waits = others.waits;
      joins = others.joins ∙ first.joins;
    }

interrupt_joins-empties :
    (p : Platform) (now : ℕ) (states : JsMap Str AgentWaitJoinState) (s : SubagentTelemetrySession)
    → s.active_agent_joins ≡ states
    → IsUnique states
    → Replaced join [] s (interrupt_wait_joins p join now states s)
unfolding interrupt_wait_joins wait_join_registry
interrupt_joins-empties p now [] s same u = record { spawns = refl; waits = refl; joins = same }
interrupt_joins-empties p now ((id, state) ∷ rest) s same u =
    let t = cancel_active_wait_join p id state join now s in
    let first = cancel_active_wait_join-Replaced p id state join now s in
    let left : t.active_agent_joins ≡ rest =
      first.joins ∙ ap (delete id) same ∙ delete-head id state rest u in
    let others = interrupt_joins-empties p now rest t left u.1 in
    record {
      spawns = others.spawns ∙ first.spawns;
      waits = others.waits ∙ first.waits;
      joins = others.joins;
    }

-- Interrupting a session, whose registries have every key once, leaves no spawn, no wait and no join
-- active.
pub interrupt_active_subagent_operations-empties :
    (p : Platform) (now : ℕ) (s : SubagentTelemetrySession)
    → IsUnique s.active_subagent_spawns
    → IsUnique s.active_agent_waits
    → IsUnique s.active_agent_joins
    → ((interrupt_active_subagent_operations p now s).active_subagent_spawns ≡ [])
      × ((interrupt_active_subagent_operations p now s).active_agent_waits ≡ [])
      × ((interrupt_active_subagent_operations p now s).active_agent_joins ≡ [])
unfolding interrupt_active_subagent_operations
interrupt_active_subagent_operations-empties p now s u_spawns u_waits u_joins =
    let s1 = interrupt_spawns p now s.active_subagent_spawns s in
    let spawned = interrupt_spawns-empties p now s.active_subagent_spawns s refl u_spawns in
    let s2 = interrupt_wait_joins p wait now s1.active_agent_waits s1 in
    let waited =
      interrupt_waits-empties p now s1.active_agent_waits s1 refl
        (subst IsUnique (sym spawned.waits) u_waits) in
    let joined =
      interrupt_joins-empties p now s2.active_agent_joins s2 refl
        (subst IsUnique (sym (waited.joins ∙ spawned.joins)) u_joins) in
    (joined.spawns ∙ waited.spawns ∙ spawned.spawns, joined.waits ∙ waited.waits, joined.joins)
