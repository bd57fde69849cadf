-- ===== src/Pi/Subagent/Environment.antt =====
-- src/pi/subagent-spawn.ts: the environment of the process of a child.
use observ_me.Prelude.{
  ℕ, ◌+◌, ◌%◌, ◌/◌, Bool, false, not, ◌||◌, Option, none, some, [], ◌∷◌, ◌++◌, Str, lit,
  str_equality, ltb, if◌then◌else◌, is_some,
}
use observ_me.Util.JsMap.{put, delete}
use observ_me.Config.Schema.{WorkflowConfig, AgentConfig}
use observ_me.Pi.Lineage.{AgentLineageContext, truthy}
use observ_me.Pi.Propagation.{
  Env, ChildIdentityPropagation, create_propagation_environment, sanitize_propagation_environment,
}
use observ_me.Pi.Subagent.Types.{SpanContext, Platform}

pub record SubagentPropagationEnvironment : Type 0 where
  pub env : Env
  pub trace_context_propagated : Bool
  pub traceparent : Option Str
  pub tracestate : Option Str
  pub parent_trace_id : Option Str
  pub parent_span_id : Option Str

abbrev pub hex_digit : ℕ → ℕ
hex_digit n = if ltb n 10 then 48 + n else 87 + n

-- The two hexadecimal digits of a byte; the letters follow ten digits.
abbrev pub hex_byte : ℕ → Str
hex_byte n = hex_digit (n / 16) ∷ hex_digit (n % 16) ∷ []

abbrev pub traceparent_of : SpanContext → Str
traceparent_of c =
    lit "00-" ++ c.trace_id ++ lit "-" ++ c.span_id ++ lit "-" ++ hex_byte (c.trace_flags % 256)

unfoldable pub build_traceparent : Platform → AgentConfig → Option SpanContext → Option Str
build_traceparent p a none = none
build_traceparent p a (some c) =
    if not a.propagate_trace_context || not (p.is_span_context_valid c)
    then none
    else some (traceparent_of c)

unfoldable pub serialize_trace_state : Option SpanContext → Option Str
serialize_trace_state none = none
serialize_trace_state (some c) = truthy c.tracestate

-- `{ ...env, ...definedEnvValue(name, value) }`
abbrev pub put_defined : Str → Option Str → Env → Env
put_defined name none env = env
put_defined name (some []) env = env
put_defined name (some (c ∷ s)) env = put name (c ∷ s) env

abbrev pub put_trace_context : Option Str → Option Str → Env → Env
put_trace_context none tracestate env = env
put_trace_context (some []) tracestate env = env
put_trace_context (some (c ∷ s)) tracestate env =
    put_defined (lit "tracestate") tracestate (put (lit "traceparent") (c ∷ s) env)

unfoldable pub sanitize_trace_context_environment : Env → Option Str → Option Str → Env
sanitize_trace_context_environment env traceparent tracestate =
    put_trace_context traceparent tracestate (
      delete (lit "TRACESTATE")
        (delete (lit "TRACEPARENT") (delete (lit "tracestate") (delete (lit "traceparent") env))))

abbrev pub trace_id_of : Option SpanContext → Option Str
trace_id_of none = none
trace_id_of (some c) = some c.trace_id

abbrev pub span_id_of : Option SpanContext → Option Str
span_id_of none = none
span_id_of (some c) = some c.span_id

-- `traceparent ? value : undefined`
abbrev pub if_propagated : Option Str → Option Str → Option Str
if_propagated none value = none
if_propagated (some traceparent) value = value

-- What the spread of `createPropagationEnvironment` and the values set after it give.
unfoldable pub with_parent :
    AgentConfig
    → (parent_session_id : Option Str) → (spawn_id : Str)
    → (traceparent tracestate trace_id span_id : Option Str) → Option Env
    → Option SubagentPropagationEnvironment
unfolding sanitize_trace_context_environment
with_parent a session spawn traceparent tracestate trace_id span_id none = none
with_parent a session spawn traceparent tracestate trace_id span_id (some env) = some (record {
  env =
      sanitize_trace_context_environment
        (put_defined (lit "tracestate") tracestate (
          put_defined (lit "traceparent") traceparent (
            put_defined a.spawn_id_env (some spawn) (
              put_defined a.parent_span_id_env span_id (
                put_defined a.parent_trace_id_env trace_id
                  (put_defined a.parent_session_id_env session env))))))
        traceparent tracestate;
  trace_context_propagated = is_some traceparent;
  traceparent = traceparent;
  tracestate = tracestate;
  parent_trace_id = trace_id;
  parent_span_id = span_id;
})

-- None where the identity is invalid and the code throws.
unfoldable pub build_subagent_propagation_environment :
    Platform
    → WorkflowConfig
    → AgentConfig
    → AgentLineageContext
    → ChildIdentityPropagation
    → (spawn_id : Str) → (parent_session_id : Option Str) → Option SpanContext
    → Env
    → Option SubagentPropagationEnvironment
unfolding build_traceparent serialize_trace_state with_parent
build_subagent_propagation_environment p w a lineage identity spawn_id session context env =
    let sanitized = sanitize_propagation_environment w a env in
    let traceparent = build_traceparent p a context in
    if not w.enabled || not a.propagate_to_subagents
    then some (record {
      env = sanitized;
      trace_context_propagated = false;
      traceparent = none;
      tracestate = none;
      parent_trace_id = none;
      parent_span_id = none;
    })
    else with_parent a session spawn_id traceparent
        (if_propagated traceparent (serialize_trace_state context))
        (if_propagated traceparent (trace_id_of context))
        (if_propagated traceparent (span_id_of context))
        (create_propagation_environment lineage w a sanitized (some identity))
