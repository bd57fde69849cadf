-- ===== src/Pi/SessionCorrelation/Examples.antt =====
-- The correlation of a child at depth one, stored and read back.
use observ_me.Prelude.{◌≡◌, refl, false, none, some, [], ◌∷◌, lit}
use observ_me.Prelude.JsValue.{null}
use observ_me.Pi.Lineage.{AgentLineageContext, child, worker}
use observ_me.Pi.SessionCorrelation.{
  CorrelationData, is_correlation_string, is_consistent_correlation_lineage, stored_data,
  stored_entry, read_session_correlation_entry, read_latest_session_correlation,
  append_session_correlation_entry, build_session_correlation_entry_data,
  normalize_session_correlation_data,
}
use observ_me.Pi.SessionCorrelation.Accepted.{
  IsCorrelation, normalize_session_correlation_data-IsCorrelation,
}
use observ_me.Pi.SessionCorrelation.RoundTrip.{
  is_valid, read_session_correlation_entry-stored, append_session_correlation_entry-latest,
}

abbrev of_worker : CorrelationData
of_worker = record {
  workflow_id = lit "w1";
  agent_id = lit "a2";
  parent_agent_id = some (lit "a1");
  root_agent_id = lit "a1";
  parent_session_id = none;
  depth = 1;
  spawn_id = some (lit "s1");
  capability = none;
}

abbrev worker_lineage : AgentLineageContext
worker_lineage = record {
  workflow_id = lit "w1";
  workflow_root_agent_id = lit "a1";
  agent_id = lit "a2";
  parent_agent_id = some (lit "a1");
  root_agent_id = lit "a1";
  depth = 1;
  role = child worker;
  display_name = none;
  capability = none;
  parent_session_id = none;
  parent_trace_id = none;
  parent_span_id = none;
  spawn_id = some (lit "s1");
  propagated_trace_context = none;
  propagation_failure = none;
  orphaned = false;
}

normalize_session_correlation_data-IsCorrelation_example : IsCorrelation of_worker
unfolding normalize_session_correlation_data
normalize_session_correlation_data-IsCorrelation_example =
    normalize_session_correlation_data-IsCorrelation (stored_data of_worker) of_worker refl

read_session_correlation_entry-stored_example :
    read_session_correlation_entry (stored_entry of_worker) ≡ some of_worker
unfolding is_valid is_consistent_correlation_lineage is_correlation_string
read_session_correlation_entry-stored_example = read_session_correlation_entry-stored of_worker refl

append_session_correlation_entry-latest_example :
    read_latest_session_correlation (
      append_session_correlation_entry worker_lineage
        (read_latest_session_correlation (null ∷ []))
        (null ∷ []))
    ≡ some of_worker
unfolding build_session_correlation_entry_data
append_session_correlation_entry-latest_example =
    append_session_correlation_entry-latest worker_lineage (null ∷ []) of_worker refl
