-- ===== src/Pi/SessionCorrelation.antt =====
-- src/pi/session-correlation.ts: the agent identity that is written to the session file, and read
-- back when the session is resumed.
mod Examples
pub mod RoundTrip
pub mod Accepted
use observ_me.Prelude.{
  ℕ, ◌==◌, nat_eq, Bool, true, false, not, ◌&&◌, ◌||◌, Option, none, some, List, [], ◌∷◌, ◌++◌, Str,
  lit, str_equality, leb, ltb, if◌then◌else◌, length, all, any,
}
use observ_me.Prelude.JsNumber.{JsNumber, finite, whole, is_integer, is_number}
use observ_me.Prelude.JsValue.{
  JsValue, undefined, number, string, object, JsFields, no_fields, field, property, property_names,
}
use observ_me.Pi.Lineage.{AgentLineageContext}

-- OBSERVME_CORRELATION_ENTRY_TYPE and OBSERVME_CORRELATION_ENTRY_SCHEMA_VERSION
abbrev pub correlation_entry_type : Str
correlation_entry_type = lit "observme.correlation"

abbrev pub correlation_schema_version : ℕ
correlation_schema_version = 1

abbrev pub maximum_correlation_value_length : ℕ
maximum_correlation_value_length = 128

-- `ObservMeCorrelationEntryData`; its schema version is always the same.
pub record CorrelationData : Type 0 where
  pub workflow_id : Str
  pub agent_id : Str
  pub parent_agent_id : Option Str
  pub root_agent_id : Str
  pub parent_session_id : Option Str
  pub depth : ℕ
  pub spawn_id : Option Str
  pub capability : Option Str

-- One code unit of `correlationValuePattern`, [A-Za-z0-9._:-].
unfoldable pub is_correlation_unit : ℕ → Bool
is_correlation_unit c =
    leb b'A' c && leb c b'Z'
    || leb b'a' c && leb c b'z'
    || leb b'0' c && leb c b'9'
    || c == b'.'
    || c == b'_'
    || c == b':'
    || c == b'-'

unfoldable pub is_correlation_string : Str → Bool
unfolding is_correlation_unit
is_correlation_string s =
    not (length s == 0 || ltb maximum_correlation_value_length (length s))
    && all is_correlation_unit s

unfoldable pub correlation_data_keys : List Str
correlation_data_keys =
    lit "schemaVersion"
    ∷ lit "workflowId"
    ∷ lit "agentId"
    ∷ lit "parentAgentId"
    ∷ lit "rootAgentId"
    ∷ lit "parentSessionId"
    ∷ lit "depth"
    ∷ lit "spawnId"
    ∷ lit "capability"
    ∷ []

unfoldable pub has_only_correlation_data_keys : JsFields → Bool
unfolding correlation_data_keys
has_only_correlation_data_keys fields =
    all (λ key. any (λ k. k == key) correlation_data_keys) (property_names fields)

unfoldable pub read_correlation_string : JsValue → Option Str
unfolding is_correlation_string
read_correlation_string (string s) = if is_correlation_string s then some s else none
read_correlation_string v = none

-- The three results of `readOptionalCorrelationString`: undefined, null and a string.
pub data OptionalRead : Type 0 where
  absent invalid : OptionalRead
  present : Str → OptionalRead

abbrev pub present_or_invalid : Option Str → OptionalRead
present_or_invalid none = invalid
present_or_invalid (some s) = present s

unfoldable pub read_optional_correlation_string : JsValue → OptionalRead
unfolding read_correlation_string
read_optional_correlation_string undefined = absent
read_optional_correlation_string v = present_or_invalid (read_correlation_string v)

unfoldable pub read_correlation_depth : JsValue → Option ℕ
read_correlation_depth (number (finite sign w f)) =
    if is_integer (finite sign w f) && (not sign || w == 0) && leb w 64 then some w else none
read_correlation_depth v = none

unfoldable pub is_consistent_correlation_lineage : Str → Option Str → Str → ℕ → Bool
is_consistent_correlation_lineage agent_id none root_agent_id depth =
    depth == 0 && root_agent_id == agent_id
is_consistent_correlation_lineage agent_id (some parent) root_agent_id depth =
    if depth == 0
    then false
    else if parent == agent_id || root_agent_id == agent_id
    then false
    else if depth == 1
    then parent == root_agent_id
    else not (parent == root_agent_id)

abbrev pub read_value : OptionalRead → Option (Option Str)
read_value absent = some none
read_value invalid = none
read_value (present s) = some (some s)

abbrev pub is_schema_version : JsValue → Bool
is_schema_version (number n) = is_number n correlation_schema_version
is_schema_version v = false

abbrev pub when_consistent : Bool → CorrelationData → Option CorrelationData
when_consistent true d = some d
when_consistent false d = none

-- The last three guards of `normalizeSessionCorrelationData`, on the fields it has read, and its result.
unfoldable pub accept_correlation :
    (workflow_id agent_id : Option Str) (parent : Option (Option Str)) (root_agent_id : Option Str)
    (parent_session : Option (Option Str)) (depth : Option ℕ)
    (spawn capability : Option (Option Str))
    → Option CorrelationData
unfolding is_consistent_correlation_lineage
accept_correlation (some w) (some a) (some parent) (some r) (some session) (some depth) (some s)
      (some c) =
    when_consistent (is_consistent_correlation_lineage a parent r depth) (record {
      workflow_id = w;
      agent_id = a;
      parent_agent_id = parent;
      root_agent_id = r;
      parent_session_id = session;
      depth = depth;
      spawn_id = s;
      capability = c;
    })
accept_correlation _ _ _ _ _ _ _ _ = none

-- `normalizeSessionCorrelationData` on an object, after its first two guards.
unfoldable pub normalize_fields : JsFields → Option CorrelationData
unfolding accept_correlation read_correlation_string read_optional_correlation_string
    read_correlation_depth
normalize_fields f =
    accept_correlation (read_correlation_string (property (lit "workflowId") f))
      (read_correlation_string (property (lit "agentId") f))
      (read_value (read_optional_correlation_string (property (lit "parentAgentId") f)))
      (read_correlation_string (property (lit "rootAgentId") f))
      (read_value (read_optional_correlation_string (property (lit "parentSessionId") f)))
      (read_correlation_depth (property (lit "depth") f))
      (read_value (read_optional_correlation_string (property (lit "spawnId") f)))
      (read_value (read_optional_correlation_string (property (lit "capability") f)))

unfoldable pub normalize_session_correlation_data : JsValue → Option CorrelationData
unfolding normalize_fields has_only_correlation_data_keys
normalize_session_correlation_data (object f) =
    if has_only_correlation_data_keys f && is_schema_version (property (lit "schemaVersion") f)
    then normalize_fields f
    else none
normalize_session_correlation_data v = none

abbrev pub is_string : JsValue → Str → Bool
is_string (string s) t = s == t
is_string v t = false

unfoldable pub read_session_correlation_entry : JsValue → Option CorrelationData
unfolding normalize_session_correlation_data
read_session_correlation_entry (object f) =
    if is_string (property (lit "type") f) (lit "custom")
      && is_string (property (lit "customType") f) correlation_entry_type
    then normalize_session_correlation_data (property (lit "data") f)
    else none
read_session_correlation_entry v = none

abbrev pub first_some : Option CorrelationData → Option CorrelationData → Option CorrelationData
first_some none rest = rest
first_some (some d) rest = some d

-- The loop runs over the entries from the last to the first.
unfoldable pub read_latest_session_correlation : List JsValue → Option CorrelationData
unfolding read_session_correlation_entry
read_latest_session_correlation [] = none
read_latest_session_correlation (entry ∷ entries) =
    first_some (read_latest_session_correlation entries) (read_session_correlation_entry entry)

abbrev pub optional_string : Option Str → JsValue
optional_string none = undefined
optional_string (some s) = string s

-- The object literal that `buildSessionCorrelationEntryData` hands on.
abbrev pub lineage_fields : AgentLineageContext → JsFields
lineage_fields l = field (lit "schemaVersion") (number (whole correlation_schema_version)) (
    field (lit "workflowId") (string l.workflow_id) (
      field (lit "agentId") (string l.agent_id) (
        field (lit "parentAgentId") (optional_string l.parent_agent_id) (
          field (lit "rootAgentId") (string l.root_agent_id) (
            field (lit "parentSessionId") (optional_string l.parent_session_id) (
              field (lit "depth") (number (whole l.depth)) (
                field (lit "spawnId") (optional_string l.spawn_id)
                  (field (lit "capability") (optional_string l.capability) no_fields))))))))

unfoldable pub build_session_correlation_entry_data : AgentLineageContext → Option CorrelationData
unfolding normalize_session_correlation_data
build_session_correlation_entry_data l =
    normalize_session_correlation_data (object (lineage_fields l))

-- `withoutUndefinedValues` leaves a property out.
abbrev pub optional_field : Str → Option Str → JsFields → JsFields
optional_field key none rest = rest
optional_field key (some s) rest = field key (string s) rest

-- The entry data as the object that is stored.
abbrev pub stored_data : CorrelationData → JsValue
stored_data d = object (
    field (lit "schemaVersion") (number (whole correlation_schema_version)) (
      field (lit "workflowId") (string d.workflow_id) (
        field (lit "agentId") (string d.agent_id) (
          optional_field (lit "parentAgentId") d.parent_agent_id (
            field (lit "rootAgentId") (string d.root_agent_id) (
              optional_field (lit "parentSessionId") d.parent_session_id (
                field (lit "depth") (number (whole d.depth)) (
                  optional_field (lit "spawnId") d.spawn_id
                    (optional_field (lit "capability") d.capability no_fields)))))))))

-- A session entry of Pi's `appendEntry` with that data.
abbrev pub stored_entry : CorrelationData → JsValue
stored_entry d = object (
    field (lit "type") (string (lit "custom")) (
      field (lit "customType") (string correlation_entry_type)
        (field (lit "data") (stored_data d) no_fields)))

abbrev same_option : Option Str → Option Str → Bool
same_option none none = true
same_option (some a) (some b) = a == b
same_option _ _ = false

unfoldable pub correlations_equal : CorrelationData → Option CorrelationData → Bool
correlations_equal left none = false
correlations_equal left (some right) =
    left.workflow_id == right.workflow_id
    && left.agent_id == right.agent_id
    && same_option left.parent_agent_id right.parent_agent_id
    && left.root_agent_id == right.root_agent_id
    && same_option left.parent_session_id right.parent_session_id
    && left.depth == right.depth
    && same_option left.spawn_id right.spawn_id
    && same_option left.capability right.capability

-- What `appendSessionCorrelationEntry` appends, where the host can append.
unfoldable pub append_session_correlation_entry :
    AgentLineageContext → Option CorrelationData → List JsValue → List JsValue
unfolding build_session_correlation_entry_data correlations_equal
append_session_correlation_entry l recovered entries =
    elim (build_session_correlation_entry_data l) [
      | none ↦ entries
      | some d ↦ if correlations_equal d recovered then entries else entries ++ stored_entry d ∷ []
    ]
