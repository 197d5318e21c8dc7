-- ===== src/Forms/Password/Strength.antt =====
-- Which passwords pass, and that what is said of the others is true.
use hellogit.Common.{
  ◌≤◌, ◌<◌, ◌≡◌, refl, ◌↔◌, ◌⊎◌, inl, inr, true, false, none, some, [], ◌∷◌, arith, any, length,
  Bool-cases,
}
use hellogit.Forms.Password.{
  Text, PasswordError, too_short, no_digit, no_lower, no_upper, no_symbol, few_unique,
  consecutive_same, is_digit, is_lower, is_upper, is_symbol, code_points, distinct, consecutive,
  checks, password_validator,
}
use hellogit.Forms.Password.Runs.{Triple, consecutive_iff}

pub record IsStrong (value : Text) : Type 0 where
  pub long : 15 ≤ length value
  pub digit : any is_digit value ≡ true
  pub lower : any is_lower value ≡ true
  pub upper : any is_upper value ≡ true
  pub symbol : any is_symbol value ≡ true
  pub unique : 8 ≤ distinct (code_points value)
  pub no_run : ¬ Triple value

-- What an error says of the value.
abbrev pub Means : PasswordError → Text → Type 0
Means too_short value = length value < 15
Means no_digit value = any is_digit value ≡ false
Means no_lower value = any is_lower value ≡ false
Means no_upper value = any is_upper value ≡ false
Means no_symbol value = any is_symbol value ≡ false
Means few_unique value = distinct (code_points value) < 8
Means consecutive_same value = Triple value

checks_sound : (value : Text) (e : PasswordError) → checks value ≡ some e → Means e value
unfolding checks
checks_sound value too_short h = ground arith
checks_sound value no_digit h = ground arith
checks_sound value no_lower h = ground arith
checks_sound value no_upper h = ground arith
checks_sound value no_symbol h = ground arith
checks_sound value few_unique h = ground arith
checks_sound value consecutive_same h = (consecutive_iff value).0 (ground arith)

checks-IsStrong : (value : Text) → checks value ≡ none → IsStrong value
unfolding checks
checks-IsStrong value h = record {
  long = ground arith;
  digit = ground arith;
  lower = ground arith;
  upper = ground arith;
  symbol = ground arith;
  unique = ground arith;
  no_run = λ t. let e = (consecutive_iff value).1 t in ground arith;
}

IsStrong-checks : (value : Text) → IsStrong value → checks value ≡ none
unfolding checks
IsStrong-checks value s = elim (Bool-cases (consecutive value)) [
  | inl e ↦ absurd (s.no_run ((consecutive_iff value).0 e))
  | inr e ↦ ground arith
]

-- A password passes exactly when it is empty or strong: at least 15 long, with a digit, a lowercase
-- letter, an uppercase letter and a symbol, at least 8 different characters, and no character three
-- times in a row.
pub password_validator_iff :
    (value : Text) → (password_validator (some value) ≡ none) ↔ ((value ≡ []) ⊎ IsStrong value)
unfolding password_validator
password_validator_iff [] = (λ _. inl refl, λ _. refl)
password_validator_iff (c ∷ cs) = (
  λ h. inr (checks-IsStrong (c ∷ cs) h),
  λ s. elim s [ inl e ↦ cc | inr strong ↦ IsStrong-checks (c ∷ cs) strong ],
)

-- Every error that is reported is true of the value.
pub password_validator_sound :
    (value : Text) (e : PasswordError) → password_validator (some value) ≡ some e → Means e value
unfolding password_validator
password_validator_sound [] e h = cc
password_validator_sound (c ∷ cs) e h = checks_sound (c ∷ cs) e h
