-- ===== src/Pi/ChildIdentity.antt =====
-- src/pi/child-identity.ts: what a parent may say of a child that it starts.
mod Examples
pub mod CodePoints
use observ_me.Prelude.{
  ℕ, ◌==◌, nat_eq, Bool, true, false, not, ◌&&◌, ◌||◌, Option, none, some, List, [], ◌∷◌, ◌++◌, Str,
  lit, str_equality, leb, ltb, if◌then◌else◌, length, all, any, ◌+◌, ◌*◌, ◌-◌,
}
use observ_me.Prelude.JsValue.{JsValue, string, object, JsFields, property}
use observ_me.Pi.Lineage.{ChildRole, lead, helper, worker, validator, ChildDescriptor}

abbrev pub display_name_max_code_points : ℕ
display_name_max_code_points = 128

abbrev pub capability_max_characters : ℕ
capability_max_characters = 64

abbrev pub is_high_surrogate : ℕ → Bool
is_high_surrogate c = leb 55296 c && leb c 56319

abbrev pub is_low_surrogate : ℕ → Bool
is_low_surrogate c = leb 56320 c && leb c 57343

-- The high surrogate that waits for its low one.
abbrev pub waiting_after : Option ℕ → ℕ → Option ℕ
waiting_after p c = if is_high_surrogate c then some c else none

abbrev pub code_points_at : Option ℕ → ℕ → List ℕ
code_points_at none c = if is_high_surrogate c then [] else c ∷ []
code_points_at (some h) c =
    if is_low_surrogate c
    then (65536 + (h - 55296) * 1024 + (c - 56320)) ∷ []
    else if is_high_surrogate c
    then h ∷ []
    else h ∷ c ∷ []

-- The code points that `for (const character of value)` runs over, a lone surrogate as itself.
abbrev pub code_points_from : Option ℕ → Str → List ℕ
code_points_from none [] = []
code_points_from (some h) [] = h ∷ []
code_points_from p (c ∷ s) = code_points_at p c ++ code_points_from (waiting_after p c) s

unfoldable pub code_points : Str → List ℕ
code_points s = code_points_from none s

-- The loop stops at the first code point over the maximum.
abbrev pub within_bound : ℕ → ℕ → List ℕ → Bool
within_bound maximum count [] = ltb 0 count
within_bound maximum count (c ∷ cs) =
    let rest = within_bound maximum (count + 1) cs in
    if ltb maximum (count + 1) then false else rest

unfoldable pub has_code_point_length_within_bound : Str → ℕ → Bool
unfolding code_points
has_code_point_length_within_bound s maximum = within_bound maximum 0 (code_points s)

unfoldable pub is_unicode_scalar_value : ℕ → Bool
is_unicode_scalar_value c = leb c 1114111 && (ltb c 55296 || ltb 57343 c)

unfoldable pub is_unicode_control_character : ℕ → Bool
is_unicode_control_character c = leb c 31 || leb 127 c && leb c 159

unfoldable pub has_only_unicode_scalar_values : Str → Bool
unfolding code_points is_unicode_scalar_value
has_only_unicode_scalar_values s = all is_unicode_scalar_value (code_points s)

unfoldable pub contains_unicode_control_character : Str → Bool
unfolding code_points is_unicode_control_character
contains_unicode_control_character s = any is_unicode_control_character (code_points s)

unfoldable pub is_valid_child_display_name : JsValue → Bool
unfolding has_code_point_length_within_bound has_only_unicode_scalar_values
    contains_unicode_control_character
is_valid_child_display_name (string s) =
    has_code_point_length_within_bound s display_name_max_code_points
    && has_only_unicode_scalar_values s
    && not (contains_unicode_control_character s)
is_valid_child_display_name v = false

abbrev pub role_name : ChildRole → Str
role_name lead = lit "lead"
role_name helper = lit "helper"
role_name worker = lit "worker"
role_name validator = lit "validator"

-- OBSERVME_CHILD_ROLES
abbrev pub child_roles : List ChildRole
child_roles = lead ∷ helper ∷ worker ∷ validator ∷ []

abbrev pub find_role : Str → List ChildRole → Option ChildRole
find_role s [] = none
find_role s (r ∷ rs) = if s == role_name r then some r else find_role s rs

-- `isObservMeChildRole`, with the role that the string is.
unfoldable pub read_child_role : JsValue → Option ChildRole
read_child_role (string s) = find_role s child_roles
read_child_role v = none

abbrev pub is_alphanumeric : ℕ → Bool
is_alphanumeric c = leb b'A' c && leb c b'Z' || leb b'a' c && leb c b'z' || leb b'0' c && leb c b'9'

abbrev pub is_capability_unit : ℕ → Bool
is_capability_unit c = is_alphanumeric c || c == b'.' || c == b'_' || c == b':' || c == b'-'

-- `childCapabilityPattern`
abbrev pub matches_capability_pattern : Str → Bool
matches_capability_pattern [] = false
matches_capability_pattern (c ∷ s) = is_alphanumeric c && all is_capability_unit s

unfoldable pub is_valid_child_capability : JsValue → Bool
is_valid_child_capability (string s) =
    leb (length s) capability_max_characters && matches_capability_pattern s
is_valid_child_capability v = false

abbrev pub text : JsValue → Str
text (string s) = s
text v = []

-- The result past the guards: ok with the descriptor, or `invalid_child_descriptor`.
abbrev pub descriptor_of :
    (name_ok : Bool)
    → Option ChildRole
    → (capability_ok : Bool) → Str
    → Str
    → Option ChildDescriptor
descriptor_of true (some r) true name capability =
    some (record { display_name = name; role = r; capability = capability })
descriptor_of _ _ _ _ _ = none

-- `validateObservMeChildDescriptor`, on a value whose properties can be read without an exception.
unfoldable pub validate_child_descriptor : JsValue → Option ChildDescriptor
unfolding is_valid_child_display_name read_child_role is_valid_child_capability
validate_child_descriptor (object f) =
    let name = property (lit "displayName") f in
    let capability = property (lit "capability") f in
    descriptor_of (is_valid_child_display_name name) (read_child_role (property (lit "role") f))
      (is_valid_child_capability capability) (text name) (text capability)
validate_child_descriptor v = none
