-- ===== src/Pi/SessionCorrelation/Accepted.antt =====
-- What a correlation is, written without the code's checks, and that only such are accepted.
use Prim.Native.Nat.{zero, suc}
use mathlib.Core.Path.{subst}
use observ_me.Prelude.{
  ℕ, ◌+◌, ◌≤◌, ◌≡◌, ◌≢◌, sym, ◌∙◌, ◌⊎◌, inl, inr, ◌==◌, nat_eq, true, false, Option, none, some, [],
  ◌∷◌, Str, length, all, All, arith, str_equality, Bool-cases,
}
use observ_me.Prelude.JsValue.{JsValue}
use observ_me.Pi.SessionCorrelation.{
  CorrelationData, is_correlation_unit, is_correlation_string, is_consistent_correlation_lineage,
  normalize_session_correlation_data,
}
use observ_me.Pi.SessionCorrelation.RoundTrip.{
  is_valid, is_valid_option, normalize_session_correlation_data-valid,
}

-- A letter, a digit, or one of - . : _ by its code.
abbrev pub IsNameUnit : ℕ → Type 0
IsNameUnit c =
    ((65 ≤ c) × (c ≤ 90))
    ⊎ ((97 ≤ c) × (c ≤ 122))
    ⊎ ((48 ≤ c) × (c ≤ 57))
    ⊎ (c ≡ 46)
    ⊎ (c ≡ 95)
    ⊎ (c ≡ 58)
    ⊎ (c ≡ 45)

pub record IsName (s : Str) : Type 0 where
  pub not_empty : 1 ≤ length s
  pub short : length s ≤ 128
  pub units : All IsNameUnit s

abbrev pub IsOptionalName : Option Str → Type 0
IsOptionalName none = Unit
IsOptionalName (some s) = IsName s

-- Where an agent can stand: it is the root and has no parent, or a child of the root, or deeper with
-- a parent that is not the root.
pub data IsPlaced : Str → Option Str → Str → ℕ → Type 0 where
  at_root : (agent : Str) → IsPlaced agent none agent 0
  under_root : (agent root : Str) → root ≢ agent → IsPlaced agent (some root) root 1
  deeper :
      (agent parent root : Str) (n : ℕ)
      → parent ≢ agent
      → root ≢ agent
      → parent ≢ root
      → IsPlaced agent (some parent) root (n + 2)

pub record IsCorrelation (d : CorrelationData) : Type 0 where
  pub workflow : IsName d.workflow_id
  pub agent : IsName d.agent_id
  pub parent : IsOptionalName d.parent_agent_id
  pub root : IsName d.root_agent_id
  pub session : IsOptionalName d.parent_session_id
  pub bounded : d.depth ≤ 64
  pub spawn : IsOptionalName d.spawn_id
  pub capability : IsOptionalName d.capability
  pub placed : IsPlaced d.agent_id d.parent_agent_id d.root_agent_id d.depth

is_correlation_unit-IsNameUnit : (c : ℕ) → is_correlation_unit c ≡ true → IsNameUnit c
unfolding is_correlation_unit
is_correlation_unit-IsNameUnit c h = ground arith

units-IsNameUnit : (s : Str) → all is_correlation_unit s ≡ true → All IsNameUnit s
units-IsNameUnit [] h = tt
units-IsNameUnit (c ∷ s) h = elim (Bool-cases (is_correlation_unit c)) [
  | inl e ↦ (is_correlation_unit-IsNameUnit c e, units-IsNameUnit s (rw e at h))
  | inr e ↦ absurd (cc (rw e at h))
]

is_correlation_string-IsName : (s : Str) → is_correlation_string s ≡ true → IsName s
unfolding is_correlation_string
is_correlation_string-IsName s h = record {
  not_empty = ground (arith, h);
  short = ground (arith, h);
  units = units-IsNameUnit s (ground (arith, h));
}

optional-IsName : (s : Option Str) → is_valid_option s ≡ true → IsOptionalName s
optional-IsName none h = tt
optional-IsName (some s) h = is_correlation_string-IsName s h

apart : (s t : Str) → (s == t) ≡ false → s ≢ t
apart s t h = λ e. let same : true ≡ false = sym ((str_equality.same_iff s t).1 e) ∙ h in cc same

lineage-IsPlaced :
    (agent : Str) (parent : Option Str) (root : Str) (depth : ℕ)
    → is_consistent_correlation_lineage agent parent root depth ≡ true
    → IsPlaced agent parent root depth
unfolding is_consistent_correlation_lineage
lineage-IsPlaced agent none root depth h =
    let top : 0 ≡ depth = ground (arith, h) in
    let same : (root == agent) ≡ true = ground (arith, h) in
    subst (λ r. IsPlaced agent none r depth) (sym ((str_equality.same_iff root agent).0 same))
      (subst (IsPlaced agent none agent) top (at_root agent))
lineage-IsPlaced agent (some parent) root zero h = absurd (cc h)
lineage-IsPlaced agent (some parent) root (suc zero) h =
    let other : (root == agent) ≡ false = ground (arith, h) in
    let same : (parent == root) ≡ true = ground (arith, h) in
    subst (λ p. IsPlaced agent (some p) root 1) (sym ((str_equality.same_iff parent root).0 same))
      (under_root agent root (apart root agent other))
lineage-IsPlaced agent (some parent) root (suc (suc n)) h =
    let own : (parent == agent) ≡ false = ground (arith, h) in
    let other : (root == agent) ≡ false = ground (arith, h) in
    let below : (parent == root) ≡ false = ground (arith, h) in
    let size : n + 2 ≡ suc (suc n) = omega arith in
    subst (IsPlaced agent (some parent) root) size (
      deeper agent parent root n (apart parent agent own) (apart root agent other)
        (apart parent root below))

-- A value that is accepted as a correlation is one: its workflow, agent and root have names, and so
-- have its parent, session, spawn and capability where they are there; a name has 1 to 128 letters,
-- digits and the characters - . : _; the depth is at most 64; and at depth 0 the agent is the root
-- and has no parent, at depth 1 its parent is the root and another agent, and at a greater depth its
-- parent is an agent that is neither the root nor the agent itself.
pub normalize_session_correlation_data-IsCorrelation :
    (v : JsValue) (d : CorrelationData)
    → normalize_session_correlation_data v ≡ some d
    → IsCorrelation d
unfolding is_valid
normalize_session_correlation_data-IsCorrelation v d h =
    let valid = normalize_session_correlation_data-valid v d h in
    record {
      workflow = is_correlation_string-IsName d.workflow_id (ground (arith, valid));
      agent = is_correlation_string-IsName d.agent_id (ground (arith, valid));
      parent = optional-IsName d.parent_agent_id (ground (arith, valid));
      root = is_correlation_string-IsName d.root_agent_id (ground (arith, valid));
      session = optional-IsName d.parent_session_id (ground (arith, valid));
      bounded = ground (arith, valid);
      spawn = optional-IsName d.spawn_id (ground (arith, valid));
      capability = optional-IsName d.capability (ground (arith, valid));
      placed =
          lineage-IsPlaced d.agent_id d.parent_agent_id d.root_agent_id d.depth
            (ground (arith, valid));
    }
