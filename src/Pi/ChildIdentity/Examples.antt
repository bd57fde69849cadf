-- ===== src/Pi/ChildIdentity/Examples.antt =====
-- A display name with a code point beyond the basic plane.
use observ_me.Prelude.{◌≡◌, refl, true, [], ◌∷◌}
use observ_me.Prelude.JsValue.{string}
use observ_me.Pi.ChildIdentity.{
  is_unicode_control_character, is_unicode_scalar_value, code_points, is_valid_child_display_name,
}
use observ_me.Pi.ChildIdentity.CodePoints.{
  encode_utf16, code_points-encode_utf16, is_valid_child_display_name-encode_utf16,
}

code_points-encode_utf16_example : code_points (encode_utf16 (65 ∷ 128512 ∷ [])) ≡ 65 ∷ 128512 ∷ []
unfolding is_unicode_scalar_value
code_points-encode_utf16_example = code_points-encode_utf16 (65 ∷ 128512 ∷ []) refl

is_valid_child_display_name-encode_utf16_example :
    is_valid_child_display_name (string (encode_utf16 (65 ∷ 128512 ∷ []))) ≡ true
unfolding is_unicode_scalar_value is_unicode_control_character
is_valid_child_display_name-encode_utf16_example =
    is_valid_child_display_name-encode_utf16 (65 ∷ 128512 ∷ []) refl
