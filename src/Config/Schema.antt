-- ===== src/Config/Schema.antt =====
-- src/config/schema.ts: the configuration, as the loader hands it to the rest of the program.
use observ_me.Prelude.{Bool, Option, List, Str}
use observ_me.Prelude.JsNumber.{JsNumber}
use observ_me.Util.JsMap.{JsMap}

pub data ObservMeEnvironment : Type 0 where
  production development test : ObservMeEnvironment

pub data PrivacyPathMode : Type 0 where
  hash basename full drop : PrivacyPathMode

pub data OtlpProtocol : Type 0 where
  http_protobuf : OtlpProtocol

pub record OtlpTlsConfig : Type 0 where
  pub insecure_skip_verify : Bool

pub record OtlpSignalEndpointsConfig : Type 0 where
  pub traces : Option Str
  pub metrics : Option Str
  pub logs : Option Str

pub record OtlpConfig : Type 0 where
  pub endpoint : Str
  pub protocol : OtlpProtocol
  pub timeout_ms : JsNumber
  pub headers : JsMap Str Str
  pub tls : OtlpTlsConfig
  pub signal_endpoints : Option OtlpSignalEndpointsConfig

pub record ResourceConfig : Type 0 where
  pub attributes : JsMap Str Str

pub record WorkflowConfig : Type 0 where
  pub id_env : Str
  pub enabled : Bool
  pub max_depth_warning : JsNumber
  pub max_fanout_warning : JsNumber

pub record AgentConfig : Type 0 where
  pub id_env : Str
  pub parent_id_env : Str
  pub root_id_env : Str
  pub parent_session_id_env : Str
  pub parent_trace_id_env : Str
  pub parent_span_id_env : Str
  pub depth_env : Str
  pub spawn_id_env : Str
  pub propagate_trace_context : Bool
  pub propagate_to_subagents : Bool
  pub child_identity_envelope_version_env : Str
  pub display_name_env : Str
  pub role_env : Str
  pub capability_env : Str
  pub write_correlation_entry : Bool

pub record TraceBatchConfig : Type 0 where
  pub max_queue_size : JsNumber
  pub max_export_batch_size : JsNumber
  pub scheduled_delay_millis : JsNumber
  pub export_timeout_millis : JsNumber

pub record TracesConfig : Type 0 where
  pub enabled : Bool
  pub sample_ratio : JsNumber
  pub batch : TraceBatchConfig

pub record MetricsConfig : Type 0 where
  pub enabled : Bool
  pub export_interval_millis : JsNumber
  pub export_timeout_millis : JsNumber
  pub active_agent_lease_duration_millis : JsNumber
  pub labels : Option (List Str)

pub record LogsBatchConfig : Type 0 where
  pub max_queue_size : JsNumber
  pub max_export_batch_size : JsNumber
  pub scheduled_delay_millis : JsNumber

pub record LogsConfig : Type 0 where
  pub enabled : Bool
  pub batch : LogsBatchConfig

pub record CaptureConfig : Type 0 where
  pub prompts : Bool
  pub responses : Bool
  pub thinking : Bool
  pub tool_arguments : Bool
  pub tool_results : Bool
  pub bash_commands : Bool
  pub bash_output : Bool
  pub file_paths : Bool

pub record CustomRedactionPatternConfig : Type 0 where
  pub name : Str
  pub pattern : Str

pub record PrivacyConfig : Type 0 where
  pub redaction_enabled : Bool
  pub allow_unsafe_capture : Bool
  pub allow_insecure_transport : Bool
  pub tenant_salt_env : Str
  pub path_mode : PrivacyPathMode
  pub custom_redaction_patterns : List CustomRedactionPatternConfig

pub record LimitsConfig : Type 0 where
  pub max_prompt_chars : JsNumber
  pub max_response_chars : JsNumber
  pub max_tool_argument_chars : JsNumber
  pub max_tool_result_chars : JsNumber
  pub max_bash_output_chars : JsNumber
  pub max_log_body_chars : JsNumber
  pub max_active_agent_runs : JsNumber
  pub max_active_turns : JsNumber
  pub max_active_tool_calls : JsNumber
  pub max_active_llm_requests : JsNumber
  pub max_active_subagent_spawns : JsNumber
  pub max_active_agent_waits : JsNumber
  pub max_active_agent_joins : JsNumber

pub record QueryLinksConfig : Type 0 where
  pub trace_url_template : Str

pub record GrafanaDatasourceUidsConfig : Type 0 where
  pub tempo : Str
  pub loki : Str
  pub prometheus : Str

pub record GrafanaTlsConfig : Type 0 where
  pub insecure_skip_verify : Bool

pub record GrafanaTransportConfig : Type 0 where
  pub prefer_ipv4 : Bool

pub record GrafanaConfig : Type 0 where
  pub url : Str
  pub token : Str
  pub username : Str
  pub password : Str
  pub datasource_uids : GrafanaDatasourceUidsConfig
  pub tls : GrafanaTlsConfig
  pub transport : GrafanaTransportConfig

pub record QueryConfig : Type 0 where
  pub enabled : Bool
  pub timeout_ms : JsNumber
  pub max_logs : JsNumber
  pub max_traces : JsNumber
  pub max_metric_series : JsNumber
  pub max_agents : JsNumber
  pub links : QueryLinksConfig
  pub grafana : GrafanaConfig

pub record ShutdownConfig : Type 0 where
  pub flush_timeout_ms : JsNumber
