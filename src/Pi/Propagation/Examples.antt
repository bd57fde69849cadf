-- ===== src/Pi/Propagation/Examples.antt =====
-- The environment of a child process, with the default names of the variables.
use observ_me.Prelude.{◌≡◌, refl, true, some, [], ◌∷◌, str_equality, lit}
use observ_me.Prelude.JsNumber.{whole}
use observ_me.Config.Schema.{WorkflowConfig, AgentConfig}
use observ_me.Pi.Lineage.{ChildDescriptor, worker}
use observ_me.Pi.ChildIdentity.{validate_child_descriptor}
use observ_me.Pi.Propagation.{
  passed, read_propagated_child_identity, build_child_identity_propagation_environment,
}
use observ_me.Pi.Propagation.Identity.{HasDistinctNames, read_propagated_child_identity-build}

abbrev workflow_names : WorkflowConfig
workflow_names = record {
  id_env = lit "WORKFLOW";
  enabled = true;
  max_depth_warning = whole 5;
  max_fanout_warning = whole 10;
}

abbrev agent_names : AgentConfig
agent_names = record {
  id_env = lit "AGENT";
  parent_id_env = lit "PARENT";
  root_id_env = lit "ROOT";
  parent_session_id_env = lit "SESSION";
  parent_trace_id_env = lit "TRACE";
  parent_span_id_env = lit "SPAN";
  depth_env = lit "DEPTH";
  spawn_id_env = lit "SPAWN";
  propagate_trace_context = true;
  propagate_to_subagents = true;
  child_identity_envelope_version_env = lit "VERSION";
  display_name_env = lit "NAME";
  role_env = lit "ROLE";
  capability_env = lit "CAPABILITY";
  write_correlation_entry = true;
}

abbrev a_worker : ChildDescriptor
a_worker = record { display_name = lit "Ann"; role = worker; capability = lit "build" }

agent_names-HasDistinctNames : HasDistinctNames agent_names
agent_names-HasDistinctNames = record {
  role_capability = refl;
  name_capability = refl;
  version_capability = refl;
  name_role = refl;
  version_role = refl;
  version_name = refl;
}

read_propagated_child_identity-build_example :
    read_propagated_child_identity agent_names (
      (lit "VERSION", lit "1")
      ∷ (lit "NAME", lit "Ann")
      ∷ (lit "ROLE", lit "worker")
      ∷ (lit "CAPABILITY", lit "build")
      ∷ [])
    ≡ passed (some a_worker)
unfolding validate_child_descriptor build_child_identity_propagation_environment
read_propagated_child_identity-build_example =
    read_propagated_child_identity-build agent_names a_worker []
      ((lit "VERSION", lit "1")
        ∷ (lit "NAME", lit "Ann")
        ∷ (lit "ROLE", lit "worker")
        ∷ (lit "CAPABILITY", lit "build")
        ∷ [])
      agent_names-HasDistinctNames refl refl
