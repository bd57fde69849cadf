-- ===== src/Pi/Propagation/Sanitized.antt =====
-- What is left of an environment that a child process inherits.
use observ_me.Prelude.{
  ◌==◌, ◌≡◌, refl, none, List, [], ◌∷◌, Str, str_equality, arith, if◌then◌else◌, any,
}
use observ_me.Util.JsMap.{get, delete, get-delete}
use observ_me.Config.Schema.{WorkflowConfig, AgentConfig}
use observ_me.Pi.Propagation.{
  Env, delete_all, propagation_environment_keys, sanitize_propagation_environment,
}

get-delete_all :
    (ks : List Str) (k : Str) (env : Env)
    → get k (delete_all ks env) ≡ (if any (λ j. j == k) ks then none else get k env)
get-delete_all [] k env = refl
get-delete_all (j ∷ ks) k env =
    ground (arith, get-delete_all ks k (delete j env), get-delete j k env)

-- The value of a name: none for one of the keys, and else what it was.
pub get-sanitize_propagation_environment :
    (w : WorkflowConfig) (a : AgentConfig) (env : Env) (k : Str)
    → get k (sanitize_propagation_environment w a env)
      ≡ (if any (λ j. j == k) (propagation_environment_keys w a) then none else get k env)
unfolding sanitize_propagation_environment
get-sanitize_propagation_environment w a env k =
    get-delete_all (propagation_environment_keys w a) k env
