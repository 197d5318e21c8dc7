-- ===== src/Forms/Validators/Required.antt =====
-- `requiredField` on every control.
use hellogit.Common.{◌≡◌, refl, ◌≢◌, ◌↔◌, String, Bool, true, false, [], ◌∷◌, arith}
use hellogit.Forms.Validators.{Value, undef, null, present, Control, passes, throws, required_field}

-- No text at all: null or undefined.
abbrev pub IsMissing : Value → Type 0
IsMissing undef = Unit
IsMissing null = Unit
IsMissing (present t) = ⊥

abbrev pub IsFilled : Value → Type 0
IsFilled (present t) = t ≢ []
IsFilled _ = ⊥

by_value :
    (message : String) (v : Value) (touched valid : Bool)
    → let r = required_field message (record { value = v; touched = touched; valid = valid }) in
      ((r ≡ passes) ↔ IsFilled v) × ((r ≡ throws) ↔ (IsMissing v × (touched ≡ true)))
unfolding required_field
by_value message undef true valid = ((λ h. cc, λ h. elim h [ ]), (λ h. (tt, refl), λ h. refl))
by_value message undef false valid = ((λ h. cc, λ h. elim h [ ]), (λ h. cc, λ h. cc (h.1)))
by_value message null true valid = ((λ h. cc, λ h. elim h [ ]), (λ h. (tt, refl), λ h. refl))
by_value message null false valid = ((λ h. cc, λ h. elim h [ ]), (λ h. cc, λ h. cc (h.1)))
by_value message (present []) true valid =
    ((λ h. cc, λ h. absurd (h refl)), (λ h. cc, λ h. elim h.0 [ ]))
by_value message (present []) false valid =
    ((λ h. cc, λ h. absurd (h refl)), (λ h. cc, λ h. elim h.0 [ ]))
by_value message (present (c ∷ cs)) true valid =
    ((λ h. λ e. cc, λ h. ground arith), (λ h. ground arith, λ h. elim h.0 [ ]))
by_value message (present (c ∷ cs)) false valid =
    ((λ h. λ e. cc, λ h. ground arith), (λ h. ground arith, λ h. elim h.0 [ ]))

-- A required field passes exactly when it holds a text that is not empty, and the validator throws
-- exactly when the control is touched and its value is null or undefined; so what is left fails.
pub required_field_iff :
    (message : String) (control : Control)
    → ((required_field message control ≡ passes) ↔ IsFilled control.value)
      × ((required_field message control ≡ throws)
          ↔ (IsMissing control.value × (control.touched ≡ true)))
required_field_iff message control = by_value message control.value control.touched control.valid
