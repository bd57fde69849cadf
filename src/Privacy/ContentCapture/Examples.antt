-- ===== src/Privacy/ContentCapture/Examples.antt =====
-- The capture policy at a redactor that replaces every content.
use observ_me.Prelude.{ℕ, ◌≡◌, refl, ◌⊎◌, ◌≤◌, true, false, none, some, Str, lit, length}
use observ_me.Prelude.JsNumber.{whole}
use observ_me.Privacy.ContentCapture.{
  limit_for_content_kind, ContentLimits, CaptureConfig, CaptureResult, RedactionResult, prompt,
  redacted, truncate_content, apply_content_capture_policy,
}
use observ_me.Privacy.ContentCapture.Policy.{
  truncate_content_lem, apply_content_capture_policy-value, IsRedacted, IsTruncated,
}

abbrev limits_of_three : ContentLimits
limits_of_three = record {
  max_prompt_chars = whole 3;
  max_response_chars = whole 3;
  max_tool_argument_chars = whole 3;
  max_tool_result_chars = whole 3;
  max_bash_output_chars = whole 3;
  max_log_body_chars = whole 3;
}

truncate_content_lem_example :
    (truncate_content (lit "hello") prompt limits_of_three
      ≡ some (record { value = lit "hel"; truncated = true; original_length = some 5 }))
    × (length (lit "hel") ≤ 3)
unfolding limit_for_content_kind
truncate_content_lem_example = truncate_content_lem (lit "hello") prompt limits_of_three 3 refl

abbrev masking : Str → ℕ → RedactionResult
masking s n = record {
  value = some (lit "***");
  dropped = false;
  truncated = false;
  original_length = none;
  redaction_failures = whole 0;
}

abbrev redacting : CaptureConfig
redacting = record {
  redaction_enabled = true;
  allow_unsafe_capture = false;
  limits = limits_of_three;
}

abbrev masked : CaptureResult
masked = record {
  mode = redacted;
  value = some (lit "***");
  captured = true;
  redaction_failures = 0;
  truncated = false;
  original_length = none;
}

apply_content_capture_policy-value_example :
    (true ≡ true)
    × (((redacting.redaction_enabled ≡ true)
          × IsRedacted masking (lit "hello") prompt limits_of_three (lit "***"))
        ⊎ ((redacting.redaction_enabled ≡ false)
            × (redacting.allow_unsafe_capture ≡ true)
            × IsTruncated masking (lit "hello") prompt limits_of_three (lit "***")))
unfolding apply_content_capture_policy
apply_content_capture_policy-value_example =
    apply_content_capture_policy-value masking true (lit "hello") (lit "***") prompt redacting
      masked refl refl
