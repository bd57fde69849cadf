-- ===== src/Prelude/JsValue.antt =====
-- Values of unknown type, as they come from session files, other extensions and the environment.
-- Objects are their own enumerable properties, each name once.
use mathlib.Core.Bool.{Bool}
use mathlib.Core.List.{List, [], ◌∷◌}
use observ_me.Prelude.Tests.{if◌then◌else◌}
use observ_me.Prelude.Equality.{◌==◌}
use observ_me.Prelude.Text.{Str, str_equality}
use observ_me.Prelude.JsNumber.{JsNumber}

mutual
  pub data JsValue : Type 0 where
    undefined null callable : JsValue
    boolean : Bool → JsValue
    number : JsNumber → JsValue
    string : Str → JsValue
    array : JsValues → JsValue
    object : JsFields → JsValue

  pub data JsValues : Type 0 where
    no_values : JsValues
    value : JsValue → JsValues → JsValues

  pub data JsFields : Type 0 where
    no_fields : JsFields
    field : Str → JsValue → JsFields → JsFields

-- `value[key]`, which is undefined where there is no such property
abbrev pub property : Str → JsFields → JsValue
property key no_fields = undefined
property key (field name v fields) = if name == key then v else property key fields

-- Object.keys
abbrev pub property_names : JsFields → List Str
property_names no_fields = []
property_names (field name v fields) = name ∷ property_names fields
