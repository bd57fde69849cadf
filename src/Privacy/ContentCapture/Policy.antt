-- ===== src/Privacy/ContentCapture/Policy.antt =====
-- What the capture policy lets out.
use Prim.Native.Nat.{zero, suc}
use mathlib.Core.Path.{subst, sym, ap, ◌∙◌}
use observ_me.Prelude.{
  leb→le, ℕ, ◌≡◌, refl, ◌⊎◌, inl, inr, Bool, true, false, Option, none, some, [], ◌∷◌, Str, leb,
  ltb, if◌then◌else◌, length, take, ◌≤◌, arith, Bool-cases,
}
use observ_me.Prelude.JsNumber.{JsNumber, whole}
use observ_me.Privacy.ContentCapture.{
  ContentLimitKind, ContentLimits, CaptureConfig, CaptureResult, RedactionResult, TruncationResult,
  truncate_content, truncate_to, limit_for_content_kind, untruncated_content, truncated_content,
  unsafe_content_capture, unsafe_result, redacted_content_capture, redact_within, redacted_result,
  dropped_content_capture, omitted_content_capture, apply_content_capture_policy,
}

length-take : (n : ℕ) (s : Str) → length (take n s) ≤ n
length-take zero s = omega arith
length-take (suc n) [] = omega arith
length-take (suc n) (c ∷ s) = omega (arith, length-take n s)

take-all : (n : ℕ) (s : Str) → length s ≤ n → take n s ≡ s
take-all zero [] h = refl
take-all zero (c ∷ s) h = absurd (omega arith)
take-all (suc n) [] h = refl
take-all (suc n) (c ∷ s) h = let rest : length s ≤ n = omega arith in rw (take-all n s rest)

some_inj {ℓ} : {A : Type ℓ} (t s : A) → some t ≡ some s → t ≡ s
some_inj t s h = ground arith

value_of :
    (m r : CaptureResult) (out : Str) → some m ≡ some r → r.value ≡ some out → m.value ≡ some out
value_of m r out h g = ap (λ y. y.value) (some_inj m r h) ∙ g

-- A result without content carries none.
omitted-value :
    (r : CaptureResult) (out : Str)
    → some omitted_content_capture ≡ some r
    → r.value ≡ some out
    → none ≡ some out
unfolding omitted_content_capture
omitted-value r out h g = value_of omitted_content_capture r out h g

dropped-value :
    (n : JsNumber) (r : CaptureResult) (out : Str)
    → some (dropped_content_capture n) ≡ some r
    → r.value ≡ some out
    → none ≡ some out
unfolding dropped_content_capture
dropped-value n r out h g = value_of (dropped_content_capture n) r out h g

truncate_to_lem :
    (v : Str) (limit : ℕ)
    → truncate_to v (some limit)
      ≡ some (record {
        value = take limit v;
        truncated = ltb limit (length v);
        original_length = if ltb limit (length v) then some (length v) else none;
      })
unfolding truncate_to untruncated_content truncated_content
truncate_to_lem v limit = elim (Bool-cases (leb (length v) limit)) [
  | inl fits ↦
      (let within : ltb limit (length v) ≡ false = ground arith in
        rw (fits, within, take-all limit v (leb→le (length v) limit fits)))
  | inr over ↦ (let beyond : ltb limit (length v) ≡ true = ground arith in rw (over, beyond))
]

-- With a valid limit, truncation returns the first code units of the content up to the limit, flags
-- exactly the content that is longer, and records the original length exactly then.
pub truncate_content_lem :
    (v : Str) (kind : ContentLimitKind) (limits : ContentLimits) (limit : ℕ)
    → limit_for_content_kind kind limits ≡ some limit
    → (truncate_content v kind limits
        ≡ some (record {
          value = take limit v;
          truncated = ltb limit (length v);
          original_length = if ltb limit (length v) then some (length v) else none;
        }))
      × (length (take limit v) ≤ limit)
unfolding truncate_content
truncate_content_lem v kind limits limit h = (rw h (truncate_to_lem v limit), length-take limit v)

module _ (redact_value : Str → ℕ → RedactionResult) where
  -- The content that a result carries is what the redactor gave for it, not dropped.
  abbrev pub IsRedacted : Str → ContentLimitKind → ContentLimits → Str → Type 0
  IsRedacted v kind limits out =
      (limit : ℕ) × (limit_for_content_kind kind limits ≡ some limit)
      × ((redact_value v limit).dropped ≡ false)
      × ((redact_value v limit).value ≡ some out)

  -- The content that a result carries is the raw content up to the limit.
  abbrev pub IsTruncated : Str → ContentLimitKind → ContentLimits → Str → Type 0
  IsTruncated v kind limits out =
      (limit : ℕ) × (limit_for_content_kind kind limits ≡ some limit) × (out ≡ take limit v)

  redacted_result-value :
      (dropped : Bool) (o : Option Str) (r : RedactionResult) (out : Str)
      → (redacted_result dropped o r).value ≡ some out
      → (dropped ≡ false) × (o ≡ some out)
  unfolding redacted_result dropped_content_capture
  redacted_result-value false (some v) r out h = (refl, h)
  redacted_result-value false none r out h = ground arith
  redacted_result-value true (some v) r out h = ground arith
  redacted_result-value true none r out h = ground arith

  redact_within-value :
      (v : Str) (o : Option ℕ) (r : CaptureResult) (out : Str)
      → redact_within redact_value v o ≡ some r
      → r.value ≡ some out
      → (limit : ℕ) × (o ≡ some limit)
        × ((redact_value v limit).dropped ≡ false)
        × ((redact_value v limit).value ≡ some out)
  unfolding redact_within
  redact_within-value v none r out h g = ground arith
  redact_within-value v (some limit) r out h g =
      let x = redact_value v limit in
      let same : redacted_result x.dropped x.value x ≡ r = some_inj _ r h in
      let (kept, given) =
        redacted_result-value x.dropped x.value x out
          (subst (λ y. y.value ≡ some out) (sym same) g) in
      (limit, refl, kept, given)

  unsafe_result-value :
      (v : Str) (o : Option ℕ) (r : CaptureResult) (out : Str)
      → unsafe_result (truncate_to v o) ≡ some r
      → r.value ≡ some out
      → (limit : ℕ) × (o ≡ some limit) × (out ≡ take limit v)
  unfolding truncate_to
  unsafe_result-value v none r out h g = ground arith
  unsafe_result-value v (some limit) r out h g =
      let t : TruncationResult = record {
        value = take limit v;
        truncated = ltb limit (length v);
        original_length = if ltb limit (length v) then some (length v) else none;
      } in
      let made : unsafe_result (some t) ≡ some r =
        sym (ap unsafe_result (truncate_to_lem v limit)) ∙ h in
      let carried : some (take limit v) ≡ some out = value_of _ r out made g in
      (limit, refl, sym (some_inj (take limit v) out carried))

  redacted_content_capture-value :
      (v : Str) (kind : ContentLimitKind) (limits : ContentLimits) (r : CaptureResult) (out : Str)
      → redacted_content_capture redact_value v kind limits ≡ some r
      → r.value ≡ some out
      → IsRedacted v kind limits out
  unfolding redacted_content_capture
  redacted_content_capture-value v kind limits r out h g =
      redact_within-value v (limit_for_content_kind kind limits) r out h g

  unsafe_content_capture-value :
      (v : Str) (kind : ContentLimitKind) (limits : ContentLimits) (r : CaptureResult) (out : Str)
      → unsafe_content_capture v kind limits ≡ some r
      → r.value ≡ some out
      → IsTruncated v kind limits out
  unfolding unsafe_content_capture truncate_content
  unsafe_content_capture-value v kind limits r out h g =
      unsafe_result-value v (limit_for_content_kind kind limits) r out h g

  -- Content leaves the process only where capture is enabled: with redaction as the redactor's
  -- output, which is never one that it dropped, and without redaction only where unsafe capture is
  -- allowed, truncated to the limit.
  pub apply_content_capture_policy-value :
      (enabled : Bool) (v out : Str) (kind : ContentLimitKind) (config : CaptureConfig)
      (r : CaptureResult)
      → apply_content_capture_policy redact_value enabled (some v) kind config ≡ some r
      → r.value ≡ some out
      → (enabled ≡ true)
        × (((config.redaction_enabled ≡ true) × IsRedacted v kind config.limits out)
            ⊎ ((config.redaction_enabled ≡ false)
                × (config.allow_unsafe_capture ≡ true)
                × IsTruncated v kind config.limits out))
  unfolding apply_content_capture_policy
  apply_content_capture_policy-value true (c ∷ v) out kind config r h g =
      elim (Bool-cases config.redaction_enabled) [
        | inl on ↦
            (let made : redacted_content_capture redact_value (c ∷ v) kind config.limits ≡ some r =
                rw on at h in
              (
                refl,
                inl (on, redacted_content_capture-value (c ∷ v) kind config.limits r out made g),
              ))
        | inr off ↦ elim (Bool-cases config.allow_unsafe_capture) [
          | inl allowed ↦
              (let made : unsafe_content_capture (c ∷ v) kind config.limits ≡ some r =
                  rw (off, allowed) at h in
                (
                  refl,
                  inr (
                    off,
                    allowed,
                    unsafe_content_capture-value (c ∷ v) kind config.limits r out made g,
                  ),
                ))
          | inr refused ↦
              (let made : some (dropped_content_capture (whole 1)) ≡ some r =
                  rw (off, refused) at h in
                let nothing : none ≡ some out = dropped-value (whole 1) r out made g in
                ground arith)
        ]
      ]
  apply_content_capture_policy-value true [] out kind config r h g =
      let nothing : none ≡ some out = omitted-value r out h g in ground arith
  apply_content_capture_policy-value false v out kind config r h g =
      let nothing : none ≡ some out = omitted-value r out h g in ground arith
