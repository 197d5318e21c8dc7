-- ===== src/Forms/Password.antt =====
-- `passwordValidator` and `consecutive` of
-- web/frontend/src/app/validators/generic-validators.validator.ts.
pub mod Runs
pub mod Strength
pub use hellogit.Common.{Text}
use hellogit.Common.{
  ℕ, suc, ◌+◌, ◌-◌, ◌*◌, String, Bool, true, false, not, ◌&&◌, ◌||◌, Option, none, some, List, [],
  ◌∷◌, if◌then◌else◌, ◌==◌, ltb, leb, any, length,
}

abbrev pub is_digit : ℕ → Bool
is_digit c = leb b'0' c && leb c b'9'

abbrev pub is_lower : ℕ → Bool
is_lower c = leb b'a' c && leb c b'z'

abbrev pub is_upper : ℕ → Bool
is_upper c = leb b'A' c && leb c b'Z'

-- `[^0-9a-zA-Z]`
abbrev pub is_symbol : ℕ → Bool
is_symbol c = not (is_digit c || is_lower c || is_upper c)

-- The characters that `new Set(text)` runs over: a high and a low surrogate make one.
unfoldable pub code_points : Text → List ℕ
code_points [] = []
code_points (u ∷ []) = u ∷ []
code_points (u ∷ v ∷ rest) =
    let paired = code_points rest in
    let alone = code_points (v ∷ rest) in
    if leb 0xD800 u && leb u 0xDBFF && leb 0xDC00 v && leb v 0xDFFF
    then (0x10000 + (u - 0xD800) * 0x400 + (v - 0xDC00)) ∷ paired
    else u ∷ alone

-- The size of a set of the elements.
unfoldable pub distinct : List ℕ → ℕ
distinct [] = 0
distinct (c ∷ cs) = if any (λ d. d == c) cs then distinct cs else suc (distinct cs)

-- The loop of `consecutive` from index 1 on, with `c` and `same`. It goes on to the index
-- `password.length`, where the character is `undefined` and ends the last run.
unfoldable pub consecutive_from : ℕ → ℕ → Text → Bool
consecutive_from c same [] = ltb 2 same
consecutive_from c same (x ∷ xs) =
    let longer = consecutive_from c (suc same) xs in
    let other = consecutive_from x 1 xs in
    if c == x then longer else if ltb 2 same then true else other

unfoldable pub consecutive : Text → Bool
unfolding consecutive_from
consecutive [] = false
consecutive (x ∷ xs) = consecutive_from x 1 xs

-- What is wrong with a password, in the order of the checks.
pub data PasswordError : Type 0 where
  too_short no_digit no_lower no_upper no_symbol few_unique consecutive_same : PasswordError

-- The checks of a value that is there.
unfoldable pub checks : Text → Option PasswordError
checks value =
    if ltb (length value) 15
    then some too_short
    else if not (any is_digit value)
    then some no_digit
    else if not (any is_lower value)
    then some no_lower
    else if not (any is_upper value)
    then some no_upper
    else if not (any is_symbol value)
    then some no_symbol
    else if ltb (distinct (code_points value)) 8
    then some few_unique
    else if consecutive value
    then some consecutive_same
    else none

-- The value of a control is `none` for null and undefined; the result is `none` for null and
-- undefined.
unfoldable pub password_validator : Option Text → Option PasswordError
unfolding checks
password_validator none = none
password_validator (some []) = none
password_validator (some (c ∷ cs)) = checks (c ∷ cs)
