-- ===== src/Pi/SessionCorrelation/RoundTrip.antt =====
-- Every correlation that is read from a session file is well formed, what is stored is read back as
-- it was, and after an append the latest entry is that of the lineage.
use mathlib.Core.Path.{subst}
use observ_me.Prelude.{
  ℕ, ◌≡◌, refl, sym, ap, ◌==◌, nat_eq, Bool, true, false, ◌&&◌, Option, none, some, List, [], ◌∷◌,
  ◌++◌, Str, lit, str_eq_iff, str_equality, leb, if◌then◌else◌, arith, Bool-cases, Option-cases,
  inl, inr,
}
use observ_me.Prelude.JsNumber.{finite, whole, nan, infinity}
use observ_me.Prelude.JsValue.{
  JsValue, undefined, null, callable, boolean, number, string, array, object, JsFields, property,
}
use observ_me.Pi.Lineage.{AgentLineageContext}
use observ_me.Pi.SessionCorrelation.{
  CorrelationData, is_correlation_string, read_correlation_string, read_optional_correlation_string,
  present_or_invalid, read_correlation_depth, is_consistent_correlation_lineage, read_value,
  accept_correlation, when_consistent, normalize_fields, has_only_correlation_data_keys,
  correlation_data_keys, normalize_session_correlation_data, read_session_correlation_entry,
  read_latest_session_correlation, build_session_correlation_entry_data, correlations_equal,
  same_option, append_session_correlation_entry, stored_entry, stored_data, optional_string,
  lineage_fields,
}

abbrev pub is_valid_option : Option Str → Bool
is_valid_option none = true
is_valid_option (some s) = is_correlation_string s

-- The names are correlation strings, the depth is at most 64, and root, parent and depth agree.
unfoldable pub is_valid : CorrelationData → Bool
is_valid d =
    is_correlation_string d.workflow_id
    && is_correlation_string d.agent_id
    && is_valid_option d.parent_agent_id
    && is_correlation_string d.root_agent_id
    && is_valid_option d.parent_session_id
    && leb d.depth 64
    && is_valid_option d.spawn_id
    && is_valid_option d.capability
    && is_consistent_correlation_lineage d.agent_id d.parent_agent_id d.root_agent_id d.depth

some_inj {ℓ} : {A : Type ℓ} (t s : A) → some t ≡ some s → t ≡ s
some_inj t s h = ground arith

read_correlation_string-valid :
    (v : JsValue) (s : Str) → read_correlation_string v ≡ some s → is_correlation_string s ≡ true
unfolding read_correlation_string
read_correlation_string-valid (string t) s h = elim (Bool-cases (is_correlation_string t)) [
  | inl e ↦
      (let x : (if true then some t else none) ≡ some s = rw e at h in
        subst (λ u. is_correlation_string u ≡ true) (some_inj t s x) e)
  | inr e ↦ (let x : (if false then some t else none) ≡ some s = rw e at h in ground arith)
]
read_correlation_string-valid undefined s h = ground arith
read_correlation_string-valid null s h = ground arith
read_correlation_string-valid callable s h = ground arith
read_correlation_string-valid (boolean b) s h = ground arith
read_correlation_string-valid (number n) s h = ground arith
read_correlation_string-valid (array vs) s h = ground arith
read_correlation_string-valid (object f) s h = ground arith

read_present-valid :
    (v : JsValue) (o : Option Str)
    → read_value (present_or_invalid (read_correlation_string v)) ≡ some o
    → is_valid_option o ≡ true
read_present-valid v o h = elim (Option-cases (read_correlation_string v)) [
  | inl e ↦ (let x : read_value (present_or_invalid none) ≡ some o = rw e at h in ground arith)
  | inr (s, e) ↦
      (let x : read_value (present_or_invalid (some s)) ≡ some o = rw e at h in
        ground (arith, read_correlation_string-valid v s e))
]

read_optional-valid :
    (v : JsValue) (o : Option Str)
    → read_value (read_optional_correlation_string v) ≡ some o
    → is_valid_option o ≡ true
unfolding read_optional_correlation_string
read_optional-valid undefined o h = ground arith
read_optional-valid null o h = read_present-valid null o h
read_optional-valid callable o h = read_present-valid callable o h
read_optional-valid (boolean b) o h = read_present-valid (boolean b) o h
read_optional-valid (number n) o h = read_present-valid (number n) o h
read_optional-valid (string s) o h = read_present-valid (string s) o h
read_optional-valid (array vs) o h = read_present-valid (array vs) o h
read_optional-valid (object f) o h = read_present-valid (object f) o h

read_correlation_depth-valid :
    (v : JsValue) (n : ℕ) → read_correlation_depth v ≡ some n → leb n 64 ≡ true
unfolding read_correlation_depth
read_correlation_depth-valid (number (finite s w f)) n h = ground arith
read_correlation_depth-valid (number nan) n h = ground arith
read_correlation_depth-valid (number (infinity s)) n h = ground arith
read_correlation_depth-valid undefined n h = ground arith
read_correlation_depth-valid null n h = ground arith
read_correlation_depth-valid callable n h = ground arith
read_correlation_depth-valid (boolean b) n h = ground arith
read_correlation_depth-valid (string s) n h = ground arith
read_correlation_depth-valid (array vs) n h = ground arith
read_correlation_depth-valid (object f) n h = ground arith

abbrev lineage_agrees : CorrelationData → Bool
lineage_agrees d =
    is_consistent_correlation_lineage d.agent_id d.parent_agent_id d.root_agent_id d.depth

same_fields :
    (m d : CorrelationData)
    → m ≡ d
    → lineage_agrees m ≡ true
    → (some m.workflow_id ≡ some d.workflow_id)
      × (some m.agent_id ≡ some d.agent_id)
      × (some m.parent_agent_id ≡ some d.parent_agent_id)
      × (some m.root_agent_id ≡ some d.root_agent_id)
      × (some m.parent_session_id ≡ some d.parent_session_id)
      × (some m.depth ≡ some d.depth)
      × (some m.spawn_id ≡ some d.spawn_id)
      × (some m.capability ≡ some d.capability)
      × (lineage_agrees d ≡ true)
same_fields m d q e = (
  ap (λ y. some y.workflow_id) q,
  ap (λ y. some y.agent_id) q,
  ap (λ y. some y.parent_agent_id) q,
  ap (λ y. some y.root_agent_id) q,
  ap (λ y. some y.parent_session_id) q,
  ap (λ y. some y.depth) q,
  ap (λ y. some y.spawn_id) q,
  ap (λ y. some y.capability) q,
  subst (λ y. lineage_agrees y ≡ true) q e,
)

when_consistent-some :
    (b : Bool) (m d : CorrelationData) → when_consistent b m ≡ some d → (b ≡ true) × (m ≡ d)
when_consistent-some true m d h = (refl, some_inj m d h)
when_consistent-some false m d h = ground arith

-- What was read, where the guards accept it.
accept_correlation-some :
    (w a : Option Str) (p : Option (Option Str)) (r : Option Str) (ps : Option (Option Str))
    (n : Option ℕ) (s c : Option (Option Str)) (d : CorrelationData)
    → accept_correlation w a p r ps n s c ≡ some d
    → (w ≡ some d.workflow_id)
      × (a ≡ some d.agent_id)
      × (p ≡ some d.parent_agent_id)
      × (r ≡ some d.root_agent_id)
      × (ps ≡ some d.parent_session_id)
      × (n ≡ some d.depth)
      × (s ≡ some d.spawn_id)
      × (c ≡ some d.capability)
      × (lineage_agrees d ≡ true)
unfolding accept_correlation
accept_correlation-some (some w) (some a) (some p) (some r) (some ps) (some n) (some s) (some c) d
      h =
    let (e, q) = when_consistent-some _ _ d h in same_fields _ d q e
accept_correlation-some none a p r ps n s c d h = ground arith
accept_correlation-some (some w) none p r ps n s c d h = ground arith
accept_correlation-some (some w) (some a) none r ps n s c d h = ground arith
accept_correlation-some (some w) (some a) (some p) none ps n s c d h = ground arith
accept_correlation-some (some w) (some a) (some p) (some r) none n s c d h = ground arith
accept_correlation-some (some w) (some a) (some p) (some r) (some ps) none s c d h = ground arith
accept_correlation-some (some w) (some a) (some p) (some r) (some ps) (some n) none c d h =
    ground arith
accept_correlation-some (some w) (some a) (some p) (some r) (some ps) (some n) (some s) none d h =
    ground arith

all_valid :
    (w a p r ps n s c l : Bool)
    → w ≡ true
    → a ≡ true
    → p ≡ true
    → r ≡ true
    → ps ≡ true
    → n ≡ true
    → s ≡ true
    → c ≡ true
    → l ≡ true
    → (w && a && p && r && ps && n && s && c && l) ≡ true
all_valid w a p r ps n s c l hw ha hp hr hps hn hs hc hl = rw (hw, ha, hp, hr, hps, hn, hs, hc) hl

valid_parts :
    (w a p r ps n s c l : Bool)
    → (w && a && p && r && ps && n && s && c && l) ≡ true
    → (w ≡ true)
      × (a ≡ true)
      × (p ≡ true)
      × (r ≡ true)
      × (ps ≡ true)
      × (n ≡ true)
      × (s ≡ true)
      × (c ≡ true)
      × (l ≡ true)
valid_parts true true true true true true true true l h =
    (refl, refl, refl, refl, refl, refl, refl, refl, h)
valid_parts false a p r ps n s c l h = ground arith
valid_parts true false p r ps n s c l h = ground arith
valid_parts true true false r ps n s c l h = ground arith
valid_parts true true true false ps n s c l h = ground arith
valid_parts true true true true false n s c l h = ground arith
valid_parts true true true true true false s c l h = ground arith
valid_parts true true true true true true false c l h = ground arith
valid_parts true true true true true true true false l h = ground arith

normalize_fields-valid :
    (f : JsFields) (d : CorrelationData) → normalize_fields f ≡ some d → is_valid d ≡ true
unfolding normalize_fields is_valid
normalize_fields-valid f d h =
    let (hw, ha, hp, hr, hps, hn, hs, hc, lineage) = accept_correlation-some _ _ _ _ _ _ _ _ d h in
    all_valid _ _ _ _ _ _ _ _ _ (read_correlation_string-valid (property (lit "workflowId") f) _ hw)
      (read_correlation_string-valid (property (lit "agentId") f) _ ha)
      (read_optional-valid (property (lit "parentAgentId") f) _ hp)
      (read_correlation_string-valid (property (lit "rootAgentId") f) _ hr)
      (read_optional-valid (property (lit "parentSessionId") f) _ hps)
      (read_correlation_depth-valid (property (lit "depth") f) _ hn)
      (read_optional-valid (property (lit "spawnId") f) _ hs)
      (read_optional-valid (property (lit "capability") f) _ hc) lineage

if_some :
    (b : Bool) (o : Option CorrelationData) (d : CorrelationData)
    → (if b then o else none) ≡ some d
    → o ≡ some d
if_some true o d h = h
if_some false o d h = ground arith

-- Whatever a session file holds, the correlation data that the normaliser accepts is well formed.
pub normalize_session_correlation_data-valid :
    (v : JsValue) (d : CorrelationData)
    → normalize_session_correlation_data v ≡ some d
    → is_valid d ≡ true
unfolding normalize_session_correlation_data
normalize_session_correlation_data-valid (object f) d h =
    normalize_fields-valid f d (if_some _ _ d h)
normalize_session_correlation_data-valid undefined d h = ground arith
normalize_session_correlation_data-valid null d h = ground arith
normalize_session_correlation_data-valid callable d h = ground arith
normalize_session_correlation_data-valid (boolean b) d h = ground arith
normalize_session_correlation_data-valid (number n) d h = ground arith
normalize_session_correlation_data-valid (string s) d h = ground arith
normalize_session_correlation_data-valid (array vs) d h = ground arith

read_string-of :
    (s : Str) → is_correlation_string s ≡ true → read_correlation_string (string s) ≡ some s
unfolding read_correlation_string
read_string-of s h = rw h

-- What a stored field with this value is read as, after the fields before it.
read_option-of :
    (o : Option Str)
    → is_valid_option o ≡ true
    → read_value (read_optional_correlation_string (optional_string o)) ≡ some o
unfolding read_optional_correlation_string read_correlation_string
read_option-of none h = refl
read_option-of (some s) h = let x : is_correlation_string s ≡ true = h in rw x

read_depth-of : (n : ℕ) → leb n 64 ≡ true → read_correlation_depth (number (whole n)) ≡ some n
unfolding read_correlation_depth
read_depth-of n h = rw h

abbrev data_of : (w a r : Str) (n : ℕ) (p ps s c : Option Str) → CorrelationData
data_of w a r n p ps s c = record {
  workflow_id = w;
  agent_id = a;
  parent_agent_id = p;
  root_agent_id = r;
  parent_session_id = ps;
  depth = n;
  spawn_id = s;
  capability = c;
}

-- The stored object has an optional key exactly where there is a value: one case for each of the
-- shapes it can have.
normalize-stored :
    (w a r : Str) (n : ℕ) (p ps s c : Option Str)
    → normalize_session_correlation_data (stored_data (data_of w a r n p ps s c))
      ≡ accept_correlation
          (read_correlation_string (string w))
          (read_correlation_string (string a))
          (read_value (read_optional_correlation_string (optional_string p)))
          (read_correlation_string (string r))
          (read_value (read_optional_correlation_string (optional_string ps)))
          (read_correlation_depth (number (whole n)))
          (read_value (read_optional_correlation_string (optional_string s)))
          (read_value (read_optional_correlation_string (optional_string c)))
unfolding normalize_session_correlation_data normalize_fields has_only_correlation_data_keys
    correlation_data_keys
normalize-stored w a r n none none none none = refl
normalize-stored w a r n none none none (some c) = refl
normalize-stored w a r n none none (some s) none = refl
normalize-stored w a r n none none (some s) (some c) = refl
normalize-stored w a r n none (some ps) none none = refl
normalize-stored w a r n none (some ps) none (some c) = refl
normalize-stored w a r n none (some ps) (some s) none = refl
normalize-stored w a r n none (some ps) (some s) (some c) = refl
normalize-stored w a r n (some p) none none none = refl
normalize-stored w a r n (some p) none none (some c) = refl
normalize-stored w a r n (some p) none (some s) none = refl
normalize-stored w a r n (some p) none (some s) (some c) = refl
normalize-stored w a r n (some p) (some ps) none none = refl
normalize-stored w a r n (some p) (some ps) none (some c) = refl
normalize-stored w a r n (some p) (some ps) (some s) none = refl
normalize-stored w a r n (some p) (some ps) (some s) (some c) = refl

-- A well-formed correlation that is stored in the session file is read back unchanged.
pub read_session_correlation_entry-stored :
    (d : CorrelationData)
    → is_valid d ≡ true
    → read_session_correlation_entry (stored_entry d) ≡ some d
unfolding read_session_correlation_entry is_valid accept_correlation
read_session_correlation_entry-stored d h =
    let (hw, ha, hp, hr, hps, hn, hs, hc, lineage) = valid_parts _ _ _ _ _ _ _ _ _ h in
    rw
      (
        normalize-stored d.workflow_id d.agent_id d.root_agent_id d.depth d.parent_agent_id
            d.parent_session_id d.spawn_id d.capability,
        read_string-of d.workflow_id hw,
        read_string-of d.agent_id ha,
        read_option-of d.parent_agent_id hp,
        read_string-of d.root_agent_id hr,
        read_option-of d.parent_session_id hps,
        read_depth-of d.depth hn,
        read_option-of d.spawn_id hs,
        read_option-of d.capability hc,
        lineage,
      )
      refl

and_true_right : (b : Bool) → b ≡ true → (b && true) ≡ true
and_true_right b h = rw h

same_option-eq : (a b : Option Str) → same_option a b ≡ true → a ≡ b
same_option-eq none none h = refl
same_option-eq (some a) (some b) h = ap some ((str_eq_iff a b).0 h)
same_option-eq none (some b) h = ground arith
same_option-eq (some a) none h = ground arith

correlations_equal-eq : (d e : CorrelationData) → correlations_equal d (some e) ≡ true → d ≡ e
unfolding correlations_equal
correlations_equal-eq d e h =
    let (w, a, p, r, ps, n, s, c, _) =
      valid_parts (d.workflow_id == e.workflow_id) (d.agent_id == e.agent_id)
        (same_option d.parent_agent_id e.parent_agent_id) (d.root_agent_id == e.root_agent_id)
        (same_option d.parent_session_id e.parent_session_id) (d.depth == e.depth)
        (same_option d.spawn_id e.spawn_id) (same_option d.capability e.capability) true
        (and_true_right _ h) in
    λ i.
      data_of ((str_eq_iff d.workflow_id e.workflow_id).0 w i)
        ((str_eq_iff d.agent_id e.agent_id).0 a i)
        ((str_eq_iff d.root_agent_id e.root_agent_id).0 r i)
        ((nat_eq.same_iff d.depth e.depth).0 n i)
        (same_option-eq d.parent_agent_id e.parent_agent_id p i)
        (same_option-eq d.parent_session_id e.parent_session_id ps i)
        (same_option-eq d.spawn_id e.spawn_id s i) (same_option-eq d.capability e.capability c i)

equal_to-some :
    (d : CorrelationData) (o : Option CorrelationData) → correlations_equal d o ≡ true → o ≡ some d
unfolding correlations_equal
equal_to-some d none h = ground arith
equal_to-some d (some e) h = ap some (sym (correlations_equal-eq d e h))

first_some-last :
    (entries : List JsValue) (v : JsValue) (d : CorrelationData)
    → read_session_correlation_entry v ≡ some d
    → read_latest_session_correlation (entries ++ v ∷ []) ≡ some d
unfolding read_latest_session_correlation
first_some-last [] v d h = h
first_some-last (e ∷ entries) v d h = rw (first_some-last entries v d h)

built-valid :
    (l : AgentLineageContext) (d : CorrelationData)
    → build_session_correlation_entry_data l ≡ some d
    → is_valid d ≡ true
unfolding build_session_correlation_entry_data
built-valid l d h = normalize_session_correlation_data-valid (object (lineage_fields l)) d h

abbrev append_data : CorrelationData → List JsValue → List JsValue
append_data d entries =
    if correlations_equal d (read_latest_session_correlation entries)
    then entries
    else entries ++ stored_entry d ∷ []

append_data-latest :
    (d : CorrelationData)
    → is_valid d ≡ true
    → (entries : List JsValue) → read_latest_session_correlation (append_data d entries) ≡ some d
append_data-latest d valid entries =
    elim (Bool-cases (correlations_equal d (read_latest_session_correlation entries))) [
      | inl e ↦ rw e (equal_to-some d (read_latest_session_correlation entries) e)
      | inr e ↦ rw e (
          first_some-last entries (stored_entry d) d
            (read_session_correlation_entry-stored d valid))
    ]

-- After the correlation entry of a lineage is appended, or left out because the latest entry equals
-- it, the latest correlation of the session file is that of the lineage.
pub append_session_correlation_entry-latest :
    (l : AgentLineageContext) (entries : List JsValue) (d : CorrelationData)
    → build_session_correlation_entry_data l ≡ some d
    → read_latest_session_correlation
        (append_session_correlation_entry l (read_latest_session_correlation entries) entries)
      ≡ some d
unfolding append_session_correlation_entry
append_session_correlation_entry-latest l entries d h =
    rw (h, append_session_correlation_entry) (append_data-latest d (built-valid l d h) entries)
