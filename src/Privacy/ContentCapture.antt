-- ===== src/Privacy/ContentCapture.antt =====
-- src/privacy/truncate.ts and src/privacy/content-capture.ts: whether a piece of content leaves the
-- process, and in which form. `redactValue` is the interface to src/privacy/redact.ts: the functions
-- here take it as an argument, applied to the content and the output limit.
mod Examples
pub mod Policy
use observ_me.Prelude.{
  ℕ, Bool, true, false, not, ◌&&◌, ◌||◌, Option, none, some, List, [], ◌∷◌, Str, leb, ltb,
  if◌then◌else◌, length, is_some, take, max,
}
use observ_me.Prelude.JsNumber.{JsNumber, finite, whole, is_integer, below, is_finite}

pub data ContentLimitKind : Type 0 where
  prompt response tool_argument tool_result bash_output log_body : ContentLimitKind

pub record ContentLimits : Type 0 where
  pub max_prompt_chars : JsNumber
  pub max_response_chars : JsNumber
  pub max_tool_argument_chars : JsNumber
  pub max_tool_result_chars : JsNumber
  pub max_bash_output_chars : JsNumber
  pub max_log_body_chars : JsNumber

-- CONTENT_LIMIT_KEYS
abbrev pub configured_limit : ContentLimitKind → ContentLimits → JsNumber
configured_limit prompt l = l.max_prompt_chars
configured_limit response l = l.max_response_chars
configured_limit tool_argument l = l.max_tool_argument_chars
configured_limit tool_result l = l.max_tool_result_chars
configured_limit bash_output l = l.max_bash_output_chars
configured_limit log_body l = l.max_log_body_chars

-- Math.trunc of a number that is not negative
abbrev pub truncated_part : JsNumber → ℕ
truncated_part (finite s w f) = w
truncated_part n = 0

-- `limitForContentKind`; none where it throws.
unfoldable pub limit_for_content_kind : ContentLimitKind → ContentLimits → Option ℕ
limit_for_content_kind kind limits =
    let limit = configured_limit kind limits in
    if not (is_integer limit) || below limit 1 then none else some (truncated_part limit)

-- `TruncationResult`: its attributes are the flag and the original length again.
pub record TruncationResult : Type 0 where
  pub value : Str
  pub truncated : Bool
  pub original_length : Option ℕ

unfoldable pub untruncated_content : Str → TruncationResult
untruncated_content v = record { value = v; truncated = false; original_length = none }

unfoldable pub truncated_content : Str → ℕ → TruncationResult
truncated_content v limit = record {
  value = take limit v;
  truncated = true;
  original_length = some (length v);
}

abbrev pub truncate_to : Str → Option ℕ → Option TruncationResult
unfolding untruncated_content truncated_content
truncate_to v none = none
truncate_to v (some limit) =
    some (if leb (length v) limit then untruncated_content v else truncated_content v limit)

-- `truncateContent`; none where the limit is invalid and it throws.
unfoldable pub truncate_content : Str → ContentLimitKind → ContentLimits → Option TruncationResult
unfolding limit_for_content_kind truncate_to
truncate_content v kind limits = truncate_to v (limit_for_content_kind kind limits)

pub data ContentCaptureMode : Type 0 where
  omitted redacted unsafe dropped : ContentCaptureMode

-- `ContentCapturePolicyResult`, with its errors counted: they are texts for a person.
pub record CaptureResult : Type 0 where
  pub mode : ContentCaptureMode
  pub value : Option Str
  pub captured : Bool
  pub redaction_failures : ℕ
  pub truncated : Bool
  pub original_length : Option ℕ

-- What the policy reads of `RedactionResult`.
pub record RedactionResult : Type 0 where
  pub value : Option Str
  pub dropped : Bool
  pub truncated : Bool
  pub original_length : Option ℕ
  pub redaction_failures : JsNumber

-- What the policy reads of the configuration's `privacy` and `limits`.
pub record CaptureConfig : Type 0 where
  pub redaction_enabled : Bool
  pub allow_unsafe_capture : Bool
  pub limits : ContentLimits

unfoldable pub omitted_content_capture : CaptureResult
omitted_content_capture = record {
  mode = omitted;
  value = none;
  captured = false;
  redaction_failures = 0;
  truncated = false;
  original_length = none;
}

unfoldable pub normalize_redaction_failures : JsNumber → ℕ
normalize_redaction_failures n = if not (is_finite n) || below n 1 then 1 else truncated_part n

unfoldable pub dropped_content_capture : JsNumber → CaptureResult
unfolding normalize_redaction_failures
dropped_content_capture failures = record {
  mode = dropped;
  value = none;
  captured = false;
  redaction_failures = normalize_redaction_failures failures;
  truncated = false;
  original_length = none;
}

abbrev pub unsafe_result : Option TruncationResult → Option CaptureResult
unsafe_result none = none
unsafe_result (some t) = some (record {
  mode = unsafe;
  value = some t.value;
  captured = true;
  redaction_failures = 0;
  truncated = t.truncated;
  original_length = t.original_length;
})

unfoldable pub unsafe_content_capture :
    Str → ContentLimitKind → ContentLimits → Option CaptureResult
unfolding truncate_content
unsafe_content_capture v kind limits = unsafe_result (truncate_content v kind limits)

-- The two results of `redactedContentCapture`. `redactionFailures || 1`: zero and NaN, for which the
-- default 1 stands, are counted as 1 by the normaliser too.
abbrev pub redacted_result : (dropped : Bool) → Option Str → RedactionResult → CaptureResult
unfolding dropped_content_capture
redacted_result false (some v) r = record {
  mode = redacted;
  value = some v;
  captured = true;
  redaction_failures = 0;
  truncated = r.truncated;
  original_length = r.original_length;
}
redacted_result _ _ r = dropped_content_capture r.redaction_failures

module _ (redact_value : Str → ℕ → RedactionResult) where
  abbrev pub redact_within : Str → Option ℕ → Option CaptureResult
  unfolding redacted_result
  redact_within v none = none
  redact_within v (some limit) =
      let r = redact_value v limit in some (redacted_result r.dropped r.value r)

  unfoldable pub redacted_content_capture :
      Str → ContentLimitKind → ContentLimits → Option CaptureResult
  unfolding redact_within limit_for_content_kind
  redacted_content_capture v kind limits = redact_within v (limit_for_content_kind kind limits)

  -- `applyContentCapturePolicy`; none where a limit is invalid and it throws.
  unfoldable pub apply_content_capture_policy :
      (capture_enabled : Bool)
      → Option Str
      → ContentLimitKind
      → CaptureConfig
      → Option CaptureResult
  unfolding omitted_content_capture redacted_content_capture unsafe_content_capture
      dropped_content_capture
  apply_content_capture_policy true (some (c ∷ s)) kind config =
      if config.redaction_enabled
      then redacted_content_capture (c ∷ s) kind config.limits
      else if config.allow_unsafe_capture
      then unsafe_content_capture (c ∷ s) kind config.limits
      else some (dropped_content_capture (whole 1))
  apply_content_capture_policy _ _ kind config = some omitted_content_capture
