-- ===== src/Pi/Propagation.antt =====
-- src/pi/agent-lineage.ts: the environment variables by which a parent tells a child process who it
-- is, and the checks that a child makes of them. An error that the code throws carries its reason.
mod Examples
pub mod Sanitized
pub mod Identity
pub mod Context
use observ_me.Prelude.{
  ℕ, zero, suc, ◌+◌, ◌/◌, ◌%◌, ◌==◌, Bool, true, false, not, ◌&&◌, ◌||◌, Option, none, some, List,
  [], ◌∷◌, Str, lit, str_equality, ltb, if◌then◌else◌, any, is_some, or_default,
}
use observ_me.Prelude.JsValue.{JsValue, string, object, field, no_fields}
use observ_me.Util.JsMap.{JsMap, get, put, delete}
use observ_me.Config.Schema.{WorkflowConfig, AgentConfig}
use observ_me.Pi.Lineage.{
  AgentRole, root, subagent, AgentLineageContext, ChildDescriptor, ParentPropagationFailureReason,
  partial_envelope, malformed_envelope, stale_envelope, unsupported_identity_envelope, truthy,
}
use observ_me.Pi.ChildIdentity.{validate_child_descriptor, role_name}

-- `NodeJS.ProcessEnv`
abbrev pub Env : Type 0
Env = JsMap Str Str

-- What a check gives, or the reason of the `LineageValidationError` that it throws.
pub data Checked {ℓ} (A : Type ℓ) : Type ℓ where
  passed : A → Checked A
  failed : ParentPropagationFailureReason → Checked A

pub data ChildIdentityPropagation : Type 0 where
  v1 : ChildIdentityPropagation
  v2 : ChildDescriptor → ChildIdentityPropagation

-- OBSERVME_CHILD_IDENTITY_ENVELOPE_VERSION as a string
abbrev pub envelope_version : Str
envelope_version = lit "1"

-- The code removes repeated names, which changes nothing for what it does with them.
unfoldable pub propagation_environment_keys : WorkflowConfig → AgentConfig → List Str
propagation_environment_keys w a =
    w.id_env
    ∷ a.id_env
    ∷ a.parent_id_env
    ∷ a.root_id_env
    ∷ a.parent_session_id_env
    ∷ a.parent_trace_id_env
    ∷ a.parent_span_id_env
    ∷ a.depth_env
    ∷ a.spawn_id_env
    ∷ a.child_identity_envelope_version_env
    ∷ a.display_name_env
    ∷ a.role_env
    ∷ a.capability_env
    ∷ lit "traceparent"
    ∷ lit "tracestate"
    ∷ lit "TRACEPARENT"
    ∷ lit "TRACESTATE"
    ∷ []

abbrev pub delete_all : List Str → Env → Env
delete_all [] env = env
delete_all (k ∷ ks) env = delete_all ks (delete k env)

unfoldable pub sanitize_propagation_environment : WorkflowConfig → AgentConfig → Env → Env
unfolding propagation_environment_keys
sanitize_propagation_environment w a env = delete_all (propagation_environment_keys w a) env

-- String of a natural number: its decimal digits, on fuel.
abbrev pub decimal_from : ℕ → ℕ → Str → Str
decimal_from zero n digits = digits
decimal_from (suc fuel) n digits =
    let more = decimal_from fuel (n / 10) ((48 + n % 10) ∷ digits) in
    if ltb n 10 then (48 + n) ∷ digits else more

abbrev pub decimal : ℕ → Str
decimal n = decimal_from (n + 1) n []

abbrev pub descriptor_value : (name role capability : Str) → JsValue
descriptor_value name role capability = object (
    field (lit "displayName") (string name)
      (field (lit "role") (string role) (field (lit "capability") (string capability) no_fields)))

abbrev pub map_v2 : Option ChildDescriptor → Option ChildIdentityPropagation
map_v2 none = none
map_v2 (some d) = some (v2 d)

-- None where the code throws.
unfoldable pub validate_child_identity_propagation :
    ChildIdentityPropagation → Option ChildIdentityPropagation
unfolding validate_child_descriptor
validate_child_identity_propagation v1 = some v1
validate_child_identity_propagation (v2 d) =
    map_v2
      (validate_child_descriptor (descriptor_value d.display_name (role_name d.role) d.capability))

-- The entries that `{ ...env, ... }` sets, one after another.
abbrev pub put_identity : AgentConfig → Option ChildIdentityPropagation → Env → Option Env
put_identity a none env = none
put_identity a (some v1) env = some env
put_identity a (some (v2 d)) env = some (
    put a.capability_env d.capability (
      put a.role_env (role_name d.role) (
        put a.display_name_env d.display_name
          (put a.child_identity_envelope_version_env envelope_version env))))

unfoldable pub build_child_identity_propagation_environment :
    AgentConfig → ChildIdentityPropagation → Env → Option Env
unfolding validate_child_identity_propagation
build_child_identity_propagation_environment a identity env =
    put_identity a (validate_child_identity_propagation identity) env

-- None where the descriptor is invalid and the code throws.
unfoldable pub create_propagation_environment :
    AgentLineageContext
    → WorkflowConfig
    → AgentConfig
    → Env
    → Option ChildIdentityPropagation
    → Option Env
unfolding sanitize_propagation_environment build_child_identity_propagation_environment
create_propagation_environment l w a extra identity =
    let sanitized_extra = sanitize_propagation_environment w a extra in
    if not w.enabled || not a.propagate_to_subagents
    then some sanitized_extra
    else build_child_identity_propagation_environment a (or_default identity v1) (
        put a.depth_env (decimal l.depth) (
          put a.root_id_env l.root_agent_id
            (put a.parent_id_env l.agent_id (put w.id_env l.workflow_id sanitized_extra))))

unfoldable pub has_any_propagation_value : WorkflowConfig → AgentConfig → Env → Bool
unfolding propagation_environment_keys
has_any_propagation_value w a env =
    any (λ name. is_some (truthy (get name env))) (propagation_environment_keys w a)

-- True where the assertion passes.
unfoldable pub assert_complete_propagation_envelope :
    WorkflowConfig → AgentConfig → Env → Checked Bool
unfolding has_any_propagation_value
assert_complete_propagation_envelope w a env =
    if not (has_any_propagation_value w a env)
    then passed true
    else if is_some (truthy (get a.id_env env))
    then failed stale_envelope
    else if any (λ name. not (is_some (truthy (get name env))))
        (w.id_env ∷ a.parent_id_env ∷ a.root_id_env ∷ a.depth_env ∷ a.spawn_id_env ∷ [])
    then failed partial_envelope
    else passed true

unfoldable pub has_any_propagated_child_identity_field : AgentConfig → Env → Bool
has_any_propagated_child_identity_field a env =
    is_some (get a.display_name_env env)
    || is_some (get a.role_env env)
    || is_some (get a.capability_env env)

abbrev pub validated : Option ChildDescriptor → Checked (Option ChildDescriptor)
validated none = failed malformed_envelope
validated (some d) = passed (some d)

abbrev pub read_descriptor : Option Str → Option Str → Option Str → Checked (Option ChildDescriptor)
unfolding validate_child_descriptor
read_descriptor (some name) (some role) (some capability) =
    validated (validate_child_descriptor (descriptor_value name role capability))
read_descriptor _ _ _ = failed partial_envelope

abbrev pub read_versioned : AgentConfig → Env → Option Str → Checked (Option ChildDescriptor)
unfolding read_descriptor has_any_propagated_child_identity_field
read_versioned a env none =
    if has_any_propagated_child_identity_field a env then failed partial_envelope else passed none
read_versioned a env (some version) =
    if version == envelope_version
    then read_descriptor (get a.display_name_env env) (get a.role_env env)
        (get a.capability_env env)
    else failed unsupported_identity_envelope

unfoldable pub read_propagated_child_identity : AgentConfig → Env → Checked (Option ChildDescriptor)
unfolding read_versioned
read_propagated_child_identity a env =
    read_versioned a env (get a.child_identity_envelope_version_env env)

unfoldable pub resolve_root_agent_id : Str → Option Str → Str
resolve_root_agent_id agent_id propagated_root = or_default (truthy propagated_root) agent_id

unfoldable pub resolve_depth : Option ℕ → Option Str → ℕ
resolve_depth propagated_depth parent =
    if is_some (truthy parent) then or_default propagated_depth 0 + 1 else 0

unfoldable pub resolve_default_role : Option Str → AgentRole
resolve_default_role parent = if is_some (truthy parent) then subagent else root
