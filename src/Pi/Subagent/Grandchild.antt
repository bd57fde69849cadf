-- ===== src/Pi/Subagent/Grandchild.antt =====
-- src/pi/subagent-spawn.ts: what a child hands on of the environment that its parent built.
use observ_me.Prelude.{
  ◌≡◌, refl, sym, ap, ◌∙◌, inl, inr, ◌==◌, ◌||◌, false, not, Option, none, some, List, [], ◌∷◌, Str,
  lit, str_equality, any, All, Bool-cases, or_default,
}
use observ_me.Util.JsMap.{get, put, delete, get-put, get-delete}
use observ_me.Config.Schema.{WorkflowConfig, AgentConfig}
use observ_me.Pi.Lineage.{AgentLineageContext}
use observ_me.Pi.Propagation.{
  Env, propagation_environment_keys, ChildIdentityPropagation, v1, v2,
  sanitize_propagation_environment, put_identity, create_propagation_environment,
  build_child_identity_propagation_environment, validate_child_identity_propagation,
}
use observ_me.Pi.Propagation.Sanitized.{get-sanitize_propagation_environment}
use observ_me.Pi.Subagent.Types.{SpanContext, Platform}
use observ_me.Pi.Subagent.Environment.{
  SubagentPropagationEnvironment, put_defined, put_trace_context,
  sanitize_trace_context_environment, with_parent, build_subagent_propagation_environment,
}

-- The name k is none of the names given.
abbrev IsForeign : Str → List Str → Type 0
IsForeign k names = All (λ name. (name == k) ≡ false) names

none-IsForeign : (k : Str) (names : List Str) → any (λ j. j == k) names ≡ false → IsForeign k names
none-IsForeign k [] h = tt
none-IsForeign k (name ∷ names) h = elim (Bool-cases (name == k)) [
  | inl e ↦ absurd (cc (rw e at h))
  | inr e ↦ (e, none-IsForeign k names (rw e at h))
]

put-foreign :
    (k name v : Str) (env : Env) → (name == k) ≡ false → get k (put name v env) ≡ get k env
put-foreign k name v env e = rw (get-put name k v env, e) refl

delete-foreign :
    (k name : Str) (env : Env) → (name == k) ≡ false → get k (delete name env) ≡ get k env
delete-foreign k name env e = rw (get-delete name k env, e) refl

put_defined-foreign :
    (k name : Str) (v : Option Str) (env : Env)
    → (name == k) ≡ false
    → get k (put_defined name v env) ≡ get k env
put_defined-foreign k name none env e = refl
put_defined-foreign k name (some []) env e = refl
put_defined-foreign k name (some (c ∷ s)) env e = put-foreign k name (c ∷ s) env e

-- None of the variables by which a parent tells a child who it is has this name.
record IsUnrelated (w : WorkflowConfig) (a : AgentConfig) (k : Str) : Type 0 where
  workflow : (w.id_env == k) ≡ false
  parent : (a.parent_id_env == k) ≡ false
  root : (a.root_id_env == k) ≡ false
  session : (a.parent_session_id_env == k) ≡ false
  trace : (a.parent_trace_id_env == k) ≡ false
  span : (a.parent_span_id_env == k) ≡ false
  depth : (a.depth_env == k) ≡ false
  spawn : (a.spawn_id_env == k) ≡ false
  version : (a.child_identity_envelope_version_env == k) ≡ false
  name : (a.display_name_env == k) ≡ false
  role : (a.role_env == k) ≡ false
  capability : (a.capability_env == k) ≡ false
  traceparent : (lit "traceparent" == k) ≡ false
  tracestate : (lit "tracestate" == k) ≡ false
  upper_traceparent : (lit "TRACEPARENT" == k) ≡ false
  upper_tracestate : (lit "TRACESTATE" == k) ≡ false

keys-IsUnrelated :
    (w : WorkflowConfig) (a : AgentConfig) (k : Str)
    → any (λ j. j == k) (propagation_environment_keys w a) ≡ false
    → IsUnrelated w a k
unfolding propagation_environment_keys
keys-IsUnrelated w a k h =
    let (
      workflow,
      (
        own,
        (
          parent,
          (
            root,
            (
              session,
              (
                trace,
                (
                  span,
                  (
                    depth,
                    (
                      spawn,
                      (
                        version,
                        (
                          name,
                          (
                            role,
                            (
                              capability,
                              (
                                traceparent,
                                (tracestate, (upper_traceparent, (upper_tracestate, end))),
                              ),
                            ),
                          ),
                        ),
                      ),
                    ),
                  ),
                ),
              ),
            ),
          ),
        ),
      ),
    ) =
      none-IsForeign k (propagation_environment_keys w a) h in
    record {
      workflow = workflow;
      parent = parent;
      root = root;
      session = session;
      trace = trace;
      span = span;
      depth = depth;
      spawn = spawn;
      version = version;
      name = name;
      role = role;
      capability = capability;
      traceparent = traceparent;
      tracestate = tracestate;
      upper_traceparent = upper_traceparent;
      upper_tracestate = upper_tracestate;
    }

some_inj : {A : Type 0} {x y : A} → some x ≡ some y → x ≡ y
some_inj h = cc h

module _ (w : WorkflowConfig) (a : AgentConfig) (k : Str) (u : IsUnrelated w a k) where
  identity-unrelated :
      (identity : Option ChildIdentityPropagation) (env r : Env)
      → put_identity a identity env ≡ some r
      → get k r ≡ get k env
  identity-unrelated none env r h = cc
  identity-unrelated (some v1) env r h = ap (get k) (sym (some_inj h))
  identity-unrelated (some (v2 d)) env r h =
      ap (get k) (sym (some_inj h))
      ∙ put-foreign k a.capability_env d.capability _ u.capability
      ∙ put-foreign k a.role_env _ _ u.role
      ∙ put-foreign k a.display_name_env _ _ u.name
      ∙ put-foreign k a.child_identity_envelope_version_env _ env u.version

  put_trace-unrelated :
      (traceparent tracestate : Option Str) (env : Env)
      → get k (put_trace_context traceparent tracestate env) ≡ get k env
  put_trace-unrelated none tracestate env = refl
  put_trace-unrelated (some []) tracestate env = refl
  put_trace-unrelated (some (c ∷ s)) tracestate env =
      put_defined-foreign k (lit "tracestate") tracestate _ u.tracestate
      ∙ put-foreign k (lit "traceparent") (c ∷ s) env u.traceparent

  sanitize_trace-unrelated :
      (env : Env) (traceparent tracestate : Option Str)
      → get k (sanitize_trace_context_environment env traceparent tracestate) ≡ get k env
  unfolding sanitize_trace_context_environment
  sanitize_trace-unrelated env traceparent tracestate =
      put_trace-unrelated traceparent tracestate _
      ∙ delete-foreign k (lit "TRACESTATE") _ u.upper_tracestate
      ∙ delete-foreign k (lit "TRACEPARENT") _ u.upper_traceparent
      ∙ delete-foreign k (lit "tracestate") _ u.tracestate
      ∙ delete-foreign k (lit "traceparent") env u.traceparent

  create-unrelated :
      (lineage : AgentLineageContext) (env : Env) (identity : Option ChildIdentityPropagation)
      (r : Env)
      → create_propagation_environment lineage w a env identity ≡ some r
      → get k r ≡ get k (sanitize_propagation_environment w a env)
  unfolding create_propagation_environment build_child_identity_propagation_environment
  create-unrelated lineage env identity r h =
      elim (Bool-cases (not w.enabled || not a.propagate_to_subagents)) [
        | inl off ↦ ap (get k) (sym (some_inj (rw (create_propagation_environment, off) at h)))
        | inr on ↦
            identity-unrelated (validate_child_identity_propagation (or_default identity v1)) _ r
              (rw (create_propagation_environment, on) at h)
            ∙ put-foreign k a.depth_env _ _ u.depth
            ∙ put-foreign k a.root_id_env _ _ u.root
            ∙ put-foreign k a.parent_id_env _ _ u.parent
            ∙ put-foreign k w.id_env _ _ u.workflow
      ]

  with_parent-unrelated :
      (session : Option Str) (spawn : Str) (traceparent tracestate trace_id span_id : Option Str)
      (env : Option Env) (r : SubagentPropagationEnvironment)
      → with_parent a session spawn traceparent tracestate trace_id span_id env ≡ some r
      → (e : Env) × (env ≡ some e) × (get k r.env ≡ get k e)
  unfolding with_parent
  with_parent-unrelated session spawn traceparent tracestate t i none r h = cc
  with_parent-unrelated session spawn traceparent tracestate t i (some e) r h = (
    e,
    refl,
    ap (λ x. get k x.env) (sym (some_inj h))
        ∙ sanitize_trace-unrelated _ traceparent tracestate
        ∙ put_defined-foreign k (lit "tracestate") tracestate _ u.tracestate
        ∙ put_defined-foreign k (lit "traceparent") traceparent _ u.traceparent
        ∙ put_defined-foreign k a.spawn_id_env (some spawn) _ u.spawn
        ∙ put_defined-foreign k a.parent_span_id_env i _ u.span
        ∙ put_defined-foreign k a.parent_trace_id_env t _ u.trace
        ∙ put_defined-foreign k a.parent_session_id_env session e u.session,
  )

unrelated-same :
    (p : Platform) (w : WorkflowConfig) (a : AgentConfig) (lineage : AgentLineageContext)
    (identity : ChildIdentityPropagation) (spawn_id : Str) (session : Option Str)
    (c : Option SpanContext) (env : Env) (r : SubagentPropagationEnvironment) (k : Str)
    → build_subagent_propagation_environment p w a lineage identity spawn_id session c env ≡ some r
    → any (λ j. j == k) (propagation_environment_keys w a) ≡ false
    → get k r.env ≡ get k env
unfolding build_subagent_propagation_environment
unrelated-same p w a lineage identity spawn_id session c env r k h unrelated =
    let u = keys-IsUnrelated w a k unrelated in
    let once : get k (sanitize_propagation_environment w a env) ≡ get k env =
      rw (get-sanitize_propagation_environment w a env k, unrelated) refl in
    let twice : get k
          (sanitize_propagation_environment w a (sanitize_propagation_environment w a env))
        ≡ get k (sanitize_propagation_environment w a env) =
      rw
        (
          get-sanitize_propagation_environment w a (sanitize_propagation_environment w a env) k,
          unrelated,
        )
        refl in
    elim (Bool-cases (not w.enabled || not a.propagate_to_subagents)) [
      | inl off ↦
          ap (λ x. get k x.env)
            (sym (some_inj (rw (build_subagent_propagation_environment, off) at h)))
          ∙ once
      | inr on ↦
          let (e, made, same) =
            with_parent-unrelated w a k u session spawn_id _ _ _ _ _ r
              (rw (build_subagent_propagation_environment, on) at h) in
          same
          ∙ create-unrelated w a k u lineage (sanitize_propagation_environment w a env)
              (some identity) e made
          ∙ twice
          ∙ once
    ]

-- Nothing that a parent sets in the environment of a child outlives the child's own sanitising: of
-- every variable, a process that the child starts is left with what the environment that the parent
-- started from would have left, whether or not the parent propagates, and whatever the names
-- configured, its identity and its trace context are.
pub sanitize-build_subagent_propagation_environment :
    (p : Platform) (w : WorkflowConfig) (a : AgentConfig) (lineage : AgentLineageContext)
    (identity : ChildIdentityPropagation) (spawn_id : Str) (session : Option Str)
    (c : Option SpanContext) (env : Env) (r : SubagentPropagationEnvironment) (k : Str)
    → build_subagent_propagation_environment p w a lineage identity spawn_id session c env ≡ some r
    → get k (sanitize_propagation_environment w a r.env)
      ≡ get k (sanitize_propagation_environment w a env)
sanitize-build_subagent_propagation_environment p w a lineage identity spawn_id session c env r k
      h =
    elim (Bool-cases (any (λ j. j == k) (propagation_environment_keys w a))) [
      | inl own ↦
          rw
            (
              get-sanitize_propagation_environment w a r.env k,
              get-sanitize_propagation_environment w a env k,
              own,
            )
            refl
      | inr unrelated ↦
          rw
            (
              get-sanitize_propagation_environment w a r.env k,
              get-sanitize_propagation_environment w a env k,
              unrelated,
            )
            (unrelated-same p w a lineage identity spawn_id session c env r k h unrelated)
    ]
