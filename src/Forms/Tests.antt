-- ===== src/Forms/Tests.antt =====
-- The theorems on form controls, applied.
use hellogit.Common.{◌≡◌, refl, ◌↔◌, ◌⊎◌, String, true, false, none, some, List, [], ◌∷◌}
use hellogit.Forms.Password.{
  Text, consecutive, distinct, code_points, password_validator, too_short,
}
use hellogit.Forms.Password.Strength.{IsStrong, password_validator_iff}
use hellogit.Forms.Validators.{
  present, Control, passes, fails, throws, Element, object, array, field, UniqueOps,
  unique_validator, required_field, new_error_object,
}
use hellogit.Forms.Validators.Unique.{Conflict, unique_validator_iff}
use hellogit.Forms.Validators.Required.{IsMissing, IsFilled, required_field_iff}

-- `xaaa`
abbrev with_run : Text
with_run = b'x' ∷ b'a' ∷ b'a' ∷ b'a' ∷ []

runs_out : consecutive with_run ≡ true
unfolding consecutive
runs_out = refl

-- `Abcdefghijklm1!` and `aa`
abbrev strong : Text
strong =
    b'A' ∷ b'b' ∷ b'c' ∷ b'd' ∷ b'e' ∷ b'f' ∷ b'g' ∷ b'h' ∷ b'i' ∷ b'j' ∷ b'k' ∷ b'l' ∷ b'm' ∷ b'1'
    ∷ b'!' ∷ []

abbrev short : Text
short = b'a' ∷ b'a' ∷ []

password_validator_iff_example :
    (password_validator (some strong) ≡ none) ↔ ((strong ≡ []) ⊎ IsStrong strong)
password_validator_iff_example = password_validator_iff strong

strong_passes : password_validator (some strong) ≡ none
unfolding password_validator distinct code_points consecutive
strong_passes = refl

short_fails : password_validator (some short) ≡ some too_short
unfolding password_validator
short_fails = refl

abbrev control : Control
control = record { value = present short; touched = false; valid = true }

required_field_iff_example :
    ((required_field "Required" control ≡ passes) ↔ IsFilled (present short))
    × ((required_field "Required" control ≡ throws) ↔ (IsMissing (present short) × (false ≡ true)))
required_field_iff_example = required_field_iff "Required" control

-- Three nodes, the second of which is being edited.
abbrev nodes : List Element
nodes =
    object (("hostname", b's' ∷ []) ∷ [])
    ∷ object (("hostname", short) ∷ [])
    ∷ object (("hostname", with_run) ∷ [])
    ∷ []

abbrev options : UniqueOps
options = record { unique_array = array nodes; form_control_name = some "hostname"; index = some 1 }

abbrev taken : Text → String
taken _ = "taken"

unique_validator_iff_example :
    ((unique_validator taken options control ≡ fails (new_error_object "taken"))
      ↔ Conflict (field "hostname") short (some 1) 0 nodes)
    × ((unique_validator taken options control ≡ passes)
        ↔ (¬ Conflict (field "hostname") short (some 1) 0 nodes))
unique_validator_iff_example =
    unique_validator_iff taken options "hostname" nodes short false true refl refl refl
