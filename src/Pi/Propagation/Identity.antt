-- ===== src/Pi/Propagation/Identity.antt =====
-- A child reads from its environment the identity that its parent put there.
use mathlib.Core.Path.{subst}
use observ_me.Prelude.Equality.{same_refl}
use observ_me.Prelude.{◌==◌, ◌≡◌, sym, ◌∙◌, false, some, Str, str_equality, arith}
use observ_me.Util.JsMap.{get, put, get-put}
use observ_me.Config.Schema.{AgentConfig}
use observ_me.Pi.Lineage.{ChildDescriptor}
use observ_me.Pi.ChildIdentity.{validate_child_descriptor, role_name}
use observ_me.Pi.Propagation.{
  Env, passed, v2, descriptor_value, envelope_version, build_child_identity_propagation_environment,
  read_propagated_child_identity,
}

-- The four variables of the identity have different names.
pub record HasDistinctNames (a : AgentConfig) : Type 0 where
  pub role_capability : (a.capability_env == a.role_env) ≡ false
  pub name_capability : (a.capability_env == a.display_name_env) ≡ false
  pub version_capability : (a.capability_env == a.child_identity_envelope_version_env) ≡ false
  pub name_role : (a.role_env == a.display_name_env) ≡ false
  pub version_role : (a.role_env == a.child_identity_envelope_version_env) ≡ false
  pub version_name : (a.display_name_env == a.child_identity_envelope_version_env) ≡ false

get-put_self : (k v : Str) (env : Env) → get k (put k v env) ≡ some v
get-put_self k v env = ground (arith, get-put k k v env, same_refl k)

get-put_other : (j k v : Str) (env : Env) → (j == k) ≡ false → get k (put j v env) ≡ get k env
get-put_other j k v env h = ground (arith, get-put j k v env, h)

-- The environment with the identity of a child.
abbrev with_identity : AgentConfig → ChildDescriptor → Env → Env
with_identity a d env = put a.capability_env d.capability (
    put a.role_env (role_name d.role) (
      put a.display_name_env d.display_name
        (put a.child_identity_envelope_version_env envelope_version env)))

read-with_identity :
    (a : AgentConfig) (d : ChildDescriptor) (env : Env)
    → HasDistinctNames a
    → validate_child_descriptor (descriptor_value d.display_name (role_name d.role) d.capability)
      ≡ some d
    → read_propagated_child_identity a (with_identity a d env) ≡ passed (some d)
unfolding read_propagated_child_identity
read-with_identity a d env n h =
    let e0 = put a.child_identity_envelope_version_env envelope_version env in
    let e1 = put a.display_name_env d.display_name e0 in
    let e2 = put a.role_env (role_name d.role) e1 in
    rw (
      get-put_other a.capability_env a.child_identity_envelope_version_env d.capability e2
          n.version_capability,
      get-put_other a.role_env a.child_identity_envelope_version_env (role_name d.role) e1
          n.version_role,
      get-put_other a.display_name_env a.child_identity_envelope_version_env d.display_name e0
          n.version_name,
      get-put_self a.child_identity_envelope_version_env envelope_version env,
      get-put_other a.capability_env a.display_name_env d.capability e2 n.name_capability,
      get-put_other a.role_env a.display_name_env (role_name d.role) e1 n.name_role,
      get-put_self a.display_name_env d.display_name e0,
      get-put_other a.capability_env a.role_env d.capability e2 n.role_capability,
      get-put_self a.role_env (role_name d.role) e1,
      get-put_self a.capability_env d.capability e2,
      h,
    )

built_lem :
    (a : AgentConfig) (d : ChildDescriptor) (env : Env)
    → validate_child_descriptor (descriptor_value d.display_name (role_name d.role) d.capability)
      ≡ some d
    → build_child_identity_propagation_environment a (v2 d) env ≡ some (with_identity a d env)
unfolding build_child_identity_propagation_environment
built_lem a d env h = rw h

some_inj : (x y : Env) → some x ≡ some y → x ≡ y
some_inj x y h = ground arith

-- Where the four variables have different names and the descriptor is one that the validator returns
-- unchanged, the child reads from the environment that its parent built the descriptor itself.
pub read_propagated_child_identity-build :
    (a : AgentConfig) (d : ChildDescriptor) (env built : Env)
    → HasDistinctNames a
    → validate_child_descriptor (descriptor_value d.display_name (role_name d.role) d.capability)
      ≡ some d
    → build_child_identity_propagation_environment a (v2 d) env ≡ some built
    → read_propagated_child_identity a built ≡ passed (some d)
read_propagated_child_identity-build a d env built n h made =
    subst (λ x. read_propagated_child_identity a x ≡ passed (some d))
      (some_inj (with_identity a d env) built (sym (built_lem a d env h) ∙ made))
      (read-with_identity a d env n h)
