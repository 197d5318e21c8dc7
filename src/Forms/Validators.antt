-- ===== src/Forms/Validators.antt =====
-- The other validators of web/frontend/src/app/validators/generic-validators.validator.ts, but
-- for `validateIPAddress`, and what they report.
pub mod Unique
pub mod Required
use text.Mathlib.Text.{◌==◌ as str_eq}
pub use hellogit.Common.{text_eq}
use hellogit.Common.{
  ℕ, suc, String, Bool, true, false, not, ◌&&◌, ◌||◌, Option, none, some, List, [], ◌∷◌,
  if◌then◌else◌, ◌==◌, ltb, keep, any, length,
}
use hellogit.Forms.Password.{Text, PasswordError, password_validator}

-- The value of a control.
pub data Value : Type 0 where
  undef null : Value
  present : Text → Value

pub record Control : Type 0 where
  pub value : Value
  pub touched : Bool
  pub valid : Bool

-- An error as the form keeps it: the `errorObject` class, or the literal of the pattern and the
-- password checks.
pub data FormError : Type 0 where
  error_object pattern_error : String → FormError
  password_error : PasswordError → FormError

-- A validator returns null or undefined, or an error, or throws a TypeError.
pub data Checked : Type 0 where
  passes throws : Checked
  fails : FormError → Checked

-- `===` on values
abbrev pub value_eq : Value → Value → Bool
value_eq undef undef = true
value_eq null null = true
value_eq (present s) (present t) = text_eq s t
value_eq _ _ = false

-- `new errorObject({control, error_message})`, with its default for an empty message
abbrev pub new_error_object : String → FormError
new_error_object message = error_object (if str_eq message "" then "Invalid Input" else message)

-- `patternValidator`; `test` is the pattern's. An empty value passes.
unfoldable pub pattern_validator : (Text → Bool) → String → Control → Checked
pattern_validator test message control = elim control.value [
  | undef ↦ passes
  | null ↦ passes
  | present [] ↦ passes
  | present (c ∷ cs) ↦ if test (c ∷ cs) then passes else fails (pattern_error message)
]

-- `passwordValidator` on a control
unfoldable pub password_check : Control → Checked
password_check control = elim control.value [
  | undef ↦ passes
  | null ↦ passes
  | present t ↦ elim (password_validator (some t)) [
    | none ↦ passes
    | some e ↦ fails (password_error e)
  ]
]

-- An element of `uniqueArray`: a string, or an object with fields.
pub data Element : Type 0 where
  string : Text → Element
  object : List (String × Text) → Element

-- `obj[name]`, where a missing field and the field of a string are undefined
abbrev pub field_of : String → List (String × Text) → Value
field_of name [] = undef
field_of name ((k, v) ∷ fields) = if str_eq k name then present v else field_of name fields

abbrev pub field : String → Element → Value
field name (string t) = undef
field name (object fields) = field_of name fields

-- The element itself, as far as a text can be equal to it: to an object it is not.
abbrev pub itself : Element → Value
itself (string t) = present t
itself (object fields) = null

pub data UniqueArray : Type 0 where
  array form_array : List Element → UniqueArray
  other : UniqueArray

pub record UniqueOps : Type 0 where
  pub unique_array : UniqueArray
  pub form_control_name : Option String
  pub index : Option ℕ

-- `i !== ops.index`
abbrev pub differs : ℕ → Option ℕ → Bool
differs i none = true
differs i (some j) = not (i == j)

-- `array.find((obj, i) => control.value.length > 0 && key(obj) === control.value && i !== ops.index)`
-- is truthy, from index i on: what is found is an object, or a present that is not empty.
unfoldable pub finds : (Element → Value) → Text → Option ℕ → ℕ → List Element → Bool
finds key value index i [] = false
finds key value index i (e ∷ es) =
    if ltb 0 (length value) && value_eq (key e) (present value) && differs i index
    then true
    else finds key value index (suc i) es

-- What is compared with the value, and in which array.
unfoldable pub is_used : UniqueOps → Text → Bool
unfolding finds
is_used ops value = elim ops.unique_array [
  | array es ↦ elim ops.form_control_name [
    | none ↦ finds itself value ops.index 0 es
    | some name ↦
        if str_eq name ""
        then finds itself value ops.index 0 es
        else finds (field name) value ops.index 0 es
  ]
  | form_array es ↦ elim ops.form_control_name [
    | none ↦ finds (field "undefined") value ops.index 0 es
    | some name ↦ finds (field name) value ops.index 0 es
  ]
  | other ↦ false
]

-- `uniqueValidator`; the message is made from the value.
unfoldable pub unique_validator : (Text → String) → UniqueOps → Control → Checked
unfolding is_used
unique_validator message ops control = elim control.value [
  | undef ↦ passes
  | null ↦ passes
  | present t ↦ if is_used ops t then fails (new_error_object (message t)) else passes
]

-- `inputFieldMatch`
unfoldable pub input_field_match : Control → String → Control → Checked
input_field_match parent message control =
    if not parent.valid
    then fails (new_error_object "Unable to validate when parent control invalid")
    else if value_eq control.value parent.value
    then passes
    else fails (new_error_object message)

-- `requiredField`: `.length` of null or undefined throws, which the first test reads if the control
-- is touched.
unfoldable pub required_field : String → Control → Checked
required_field message control = elim control.value [
  | undef ↦ if control.touched then throws else fails (new_error_object message)
  | null ↦ if control.touched then throws else fails (new_error_object message)
  | present t ↦
      if control.touched && ltb 0 (length t)
      then passes
      else if control.touched || length t == 0
      then fails (new_error_object message)
      else passes
]

-- The elements of `minRequiredArray`: a FormArray's are looked up by `minRequireControl`, those of
-- a plain array by `value`.
pub data MinArray : Type 0 where
  form_array_of plain_array : List (List (String × Text)) → MinArray

abbrev pub is_defined : Value → Bool
is_defined undef = false
is_defined _ = true

-- `minInArray`
unfoldable pub min_in_array : MinArray → String → Value → ℕ → String → Checked
min_in_array (form_array_of es) control_name required minimum message =
    if not (any (λ e. is_defined (field_of control_name e)) es)
    then passes
    else if ltb (length (keep (λ e. value_eq (field_of control_name e) required) es)) minimum
    then fails (new_error_object message)
    else passes
min_in_array (plain_array es) control_name required minimum message =
    if not (any (λ e. is_defined (field_of control_name e)) es)
    then passes
    else if ltb (length (keep (λ e. value_eq (field_of "value" e) required) es)) minimum
    then fails (new_error_object message)
    else passes
