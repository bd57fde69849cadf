-- ===== src/Pi/Subagent/TraceContext.antt =====
-- src/pi/subagent-spawn.ts: the trace context in the environment of a child.
use mathlib.Core.Path.{subst}
use observ_me.Prelude.{
  drop, any, zero, suc, ℕ, ◌≡◌, refl, ◌∙◌, inl, inr, ◌==◌, ◌||◌, Bool, true, not, Option, none,
  some, List, [], ◌∷◌, Str, lit, str_equality, arith, if◌then◌else◌, if_elim, is_some, Bool-cases,
}
use observ_me.Util.JsMap.{get, put, delete, get-put, get-delete}
use observ_me.Config.Schema.{WorkflowConfig, AgentConfig}
use observ_me.Pi.Lineage.{AgentLineageContext, truthy}
use observ_me.Pi.Propagation.{
  Env, propagation_environment_keys, ChildIdentityPropagation, sanitize_propagation_environment,
}
use observ_me.Pi.Propagation.Sanitized.{get-sanitize_propagation_environment}
use observ_me.Pi.Subagent.Types.{SpanContext, Platform}
use observ_me.Pi.Subagent.Environment.{
  SubagentPropagationEnvironment, put_defined, sanitize_trace_context_environment, with_parent,
  build_traceparent, serialize_trace_state, if_propagated, build_subagent_propagation_environment,
}

-- The environment has the trace context given, and none under any other name.
pub record Carries (env : Env) (traceparent tracestate : Option Str) : Type 0 where
  pub parent : get (lit "traceparent") env ≡ traceparent
  pub state : get (lit "tracestate") env ≡ tracestate
  pub no_upper_parent : get (lit "TRACEPARENT") env ≡ none
  pub no_upper_state : get (lit "TRACESTATE") env ≡ none

abbrev cleared : Env → Env
cleared env =
    delete (lit "TRACESTATE")
      (delete (lit "TRACEPARENT") (delete (lit "tracestate") (delete (lit "traceparent") env)))

get-cleared :
    (k : Str) (env : Env)
    → get k (cleared env) ≡ (
        if lit "TRACESTATE" == k
        then none
        else if lit "TRACEPARENT" == k
        then none
        else if lit "tracestate" == k
        then none
        else if lit "traceparent" == k
        then none
        else get k env)
get-cleared k env =
    rw
      (
        get-delete (lit "TRACESTATE") k (
            delete (lit "TRACEPARENT")
              (delete (lit "tracestate") (delete (lit "traceparent") env))),
        get-delete (lit "TRACEPARENT") k
            (delete (lit "tracestate") (delete (lit "traceparent") env)),
        get-delete (lit "tracestate") k (delete (lit "traceparent") env),
        get-delete (lit "traceparent") k env,
      )
      refl

cleared-Carries : (env : Env) → Carries (cleared env) none none
cleared-Carries env = record {
  parent = get-cleared (lit "traceparent") env;
  state = get-cleared (lit "tracestate") env;
  no_upper_parent = get-cleared (lit "TRACEPARENT") env;
  no_upper_state = get-cleared (lit "TRACESTATE") env;
}

put_parent-Carries :
    (v : Str) (env : Env)
    → Carries env none none
    → Carries (put (lit "traceparent") v env) (some v) none
put_parent-Carries v env c = record {
  parent = get-put (lit "traceparent") (lit "traceparent") v env;
  state = get-put (lit "traceparent") (lit "tracestate") v env ∙ c.state;
  no_upper_parent = get-put (lit "traceparent") (lit "TRACEPARENT") v env ∙ c.no_upper_parent;
  no_upper_state = get-put (lit "traceparent") (lit "TRACESTATE") v env ∙ c.no_upper_state;
}

put_state-Carries :
    (v : Str) (parent : Option Str) (env : Env)
    → Carries env parent none
    → Carries (put (lit "tracestate") v env) parent (some v)
put_state-Carries v parent env c = record {
  parent = get-put (lit "tracestate") (lit "traceparent") v env ∙ c.parent;
  state = get-put (lit "tracestate") (lit "tracestate") v env;
  no_upper_parent = get-put (lit "tracestate") (lit "TRACEPARENT") v env ∙ c.no_upper_parent;
  no_upper_state = get-put (lit "tracestate") (lit "TRACESTATE") v env ∙ c.no_upper_state;
}

-- A value that JavaScript takes for true, or none.
abbrev IsProper : Option Str → Type 0
IsProper value = truthy value ≡ value

sanitize_trace_context_environment-Carries :
    (env : Env) (traceparent tracestate : Option Str)
    → IsProper traceparent
    → IsProper tracestate
    → Carries
        (sanitize_trace_context_environment env traceparent (if_propagated traceparent tracestate))
        traceparent
        (if_propagated traceparent tracestate)
unfolding sanitize_trace_context_environment
sanitize_trace_context_environment-Carries env none tracestate p s = cleared-Carries env
sanitize_trace_context_environment-Carries env (some []) tracestate p s = cc
sanitize_trace_context_environment-Carries env (some (c ∷ v)) none p s =
    put_parent-Carries (c ∷ v) (cleared env) (cleared-Carries env)
sanitize_trace_context_environment-Carries env (some (c ∷ v)) (some []) p s = cc
sanitize_trace_context_environment-Carries env (some (c ∷ v)) (some (d ∷ w)) p s =
    put_state-Carries (d ∷ w) (some (c ∷ v)) (put (lit "traceparent") (c ∷ v) (cleared env))
      (put_parent-Carries (c ∷ v) (cleared env) (cleared-Carries env))

some_inj : {A : Type 0} {x y : A} → some x ≡ some y → x ≡ y
some_inj h = cc h

truthy_twice : (o : Option Str) → truthy (truthy o) ≡ truthy o
truthy_twice none = refl
truthy_twice (some []) = refl
truthy_twice (some (c ∷ s)) = refl

any-later :
    {A : Type 0} (p : A → Bool) (n : ℕ) (xs : List A) → any p (drop n xs) ≡ true → any p xs ≡ true
any-later p zero xs h = h
any-later p (suc n) [] h = h
any-later p (suc n) (x ∷ xs) h = ground (arith, any-later p n xs h)

sanitized-none :
    (w : WorkflowConfig) (a : AgentConfig) (env : Env) (k : Str)
    → any (λ j. j == k) (drop 13 (propagation_environment_keys w a)) ≡ true
    → get k (sanitize_propagation_environment w a env) ≡ none
sanitized-none w a env k there =
    rw
      (
        get-sanitize_propagation_environment w a env k,
        any-later (λ j. j == k) 13 (propagation_environment_keys w a) there,
      )
      refl

-- An environment with what it says of the trace context.
abbrev IsConsistent : SubagentPropagationEnvironment → Type 0
IsConsistent r =
    Carries r.env r.traceparent r.tracestate × (r.trace_context_propagated ≡ is_some r.traceparent)

with_parent-IsConsistent :
    (a : AgentConfig) (session : Option Str) (spawn : Str)
    (traceparent tracestate trace_id span_id : Option Str) (env : Option Env)
    (r : SubagentPropagationEnvironment)
    → IsProper traceparent
    → IsProper tracestate
    → with_parent a session spawn traceparent
        (if_propagated traceparent tracestate)
        trace_id
        span_id
        env
      ≡ some r
    → IsConsistent r
unfolding with_parent
with_parent-IsConsistent a session spawn traceparent tracestate t i none r p s h = cc
with_parent-IsConsistent a session spawn traceparent tracestate t i (some env) r p s h =
    subst IsConsistent (some_inj h) (
      sanitize_trace_context_environment-Carries
          (put_defined (lit "tracestate") (if_propagated traceparent tracestate) (
            put_defined (lit "traceparent") traceparent (
              put_defined a.spawn_id_env (some spawn) (
                put_defined a.parent_span_id_env i (
                  put_defined a.parent_trace_id_env t
                    (put_defined a.parent_session_id_env session env))))))
          traceparent tracestate p s,
      refl,
    )

serialize_trace_state-IsProper : (c : Option SpanContext) → IsProper (serialize_trace_state c)
unfolding serialize_trace_state
serialize_trace_state-IsProper none = refl
serialize_trace_state-IsProper (some c) = truthy_twice c.tracestate

build_traceparent-IsProper :
    (p : Platform) (a : AgentConfig) (c : Option SpanContext) → IsProper (build_traceparent p a c)
unfolding build_traceparent
build_traceparent-IsProper p a none = refl
build_traceparent-IsProper p a (some c) =
    if_elim (not a.propagate_trace_context || not (p.is_span_context_valid c)) IsProper refl refl

-- The environment of a child process carries exactly the trace context that is reported with it: the
-- variable traceparent has it and tracestate its state, or neither is there, the variants in upper
-- case never are, and the context counts as propagated just where traceparent is there. Whatever
-- trace variables the parent's own environment or its configured names hold does not matter.
pub build_subagent_propagation_environment-trace_context :
    (p : Platform) (w : WorkflowConfig) (a : AgentConfig) (lineage : AgentLineageContext)
    (identity : ChildIdentityPropagation) (spawn_id : Str) (session : Option Str)
    (c : Option SpanContext) (env : Env) (r : SubagentPropagationEnvironment)
    → build_subagent_propagation_environment p w a lineage identity spawn_id session c env ≡ some r
    → Carries r.env r.traceparent r.tracestate
      × (r.trace_context_propagated ≡ is_some r.traceparent)
unfolding build_subagent_propagation_environment propagation_environment_keys
build_subagent_propagation_environment-trace_context p w a lineage identity spawn_id session c env r
      h =
    elim (Bool-cases (not w.enabled || not a.propagate_to_subagents)) [
      | inl off ↦
          subst IsConsistent (some_inj (rw (build_subagent_propagation_environment, off) at h)) (
            record {
              parent = sanitized-none w a env (lit "traceparent") refl;
              state = sanitized-none w a env (lit "tracestate") refl;
              no_upper_parent = sanitized-none w a env (lit "TRACEPARENT") refl;
              no_upper_state = sanitized-none w a env (lit "TRACESTATE") refl;
            },
            refl,
          )
      | inr on ↦
          with_parent-IsConsistent a session spawn_id (build_traceparent p a c)
            (serialize_trace_state c) _ _ _ r (build_traceparent-IsProper p a c)
            (serialize_trace_state-IsProper c)
            (rw (build_subagent_propagation_environment, on) at h)
    ]
