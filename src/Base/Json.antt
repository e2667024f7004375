-- ===== src/Base/Json.antt =====
-- Parsed JSON bodies, as the payment adapters read them: `body[name]` and its truthiness.
use mathlib.Core.Bool.{Bool, true, false}
use mathlib.Core.Option.{Option, none, some}
use mathlib.Core.List.{[], ◌∷◌}
use babushop_wifi.Base.Tests.{Text, codes, text_eq, if◌then◌else◌}

-- A number and an array are kept as the text that `String(…)` gives for them.
mutual
  pub data Json : Type 0 where
    null : Json
    boolean : Bool → Json
    number : Text → Json
    string : Text → Json
    array : Text → Json
    object : Fields → Json

  pub data Fields : Type 0 where
    no_fields : Fields
    field : Text → Json → Fields → Fields

-- `body[name]`; a missing field is `null` here.
unfoldable pub field_of : Fields → Text → Json
field_of no_fields name = null
field_of (field key value rest) name = if text_eq key name then value else field_of rest name

-- `(value || {})` where the value is used as an object.
abbrev pub fields_in : Json → Fields
fields_in (object fs) = fs
fields_in _ = no_fields

-- `String(value ?? '')`
abbrev pub text_of : Json → Text
text_of null = []
text_of (boolean true) = codes "true"
text_of (boolean false) = codes "false"
text_of (number n) = n
text_of (string t) = t
text_of (array t) = t
text_of (object fs) = codes "[object Object]"

-- A text that is not empty, as `typeof value === 'string' && value` and `a || b` ask for.
abbrev pub full_text : Json → Option Text
full_text (string (c ∷ t)) = some (c ∷ t)
full_text _ = none

abbrev pub or_else {ℓ} : {A : Type ℓ} → Option A → Option A → Option A
or_else none b = b
or_else (some a) b = some a
