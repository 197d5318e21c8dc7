-- ===== src/Mips/Messages.antt =====
-- The messages that the loops write.
use mathlib.Core.List.{append-nil, append_assoc}
use hellogit.Common.{
  Text, codes, join_with, ℕ, suc, ◌+◌, ◌-◌, ◌==◌, ltb, ◌≡◌, sym, ap, ◌∙◌, true, false, not, none,
  some, List, [], ◌∷◌, ◌++◌, map, arith, length,
}
use hellogit.Mips.{
  Errors, errors_loop, keys_loop, construct_post_validation_error_message, array_loop, add_failed,
  post_array, post_object, display, shown,
}

abbrev line_of : Text → Text → Text
line_of key error = key ++ (codes ":     " ++ error)

behind : (s t u v : Text) → (s ++ (t ++ u)) ++ v ≡ s ++ (t ++ (u ++ v))
behind s t u v = append_assoc s (t ++ u) v ∙ ap (λ x. s ++ x) (append_assoc t u v)

errors_lem :
    (key : Text) (count index : ℕ) (message : Text) (errors : List Text)
    → index + length errors ≡ count
    → errors_loop key count index message errors
      ≡ message ++ join_with (codes "\n") (map (line_of key) errors)
unfolding errors_loop
errors_lem key count index message [] h = sym (append-nil message)
errors_lem key count index message (e ∷ []) h =
    let last : not (index == (count - 1)) ≡ false = ground arith in
    rw last (ap (λ t. message ++ t) (append-nil (line_of key e)))
errors_lem key count index message (e ∷ f ∷ es) h =
    let more : not (index == (count - 1)) ≡ true = ground arith in
    rw more (
      errors_lem key count (suc index) (message ++ (line_of key e ++ codes "\n")) (f ∷ es)
        (omega (arith, h))
      ∙ behind message (line_of key e) (codes "\n") _)

-- The errors of a key, a line each.
abbrev pub lines_of : Text × List Text → Text
lines_of e = join_with (codes "\n") (map (line_of e.0) e.1)

keys_lem :
    (count index : ℕ) (message : Text) (errors : Errors)
    → index + length errors ≡ count
    → keys_loop count index message errors
      ≡ message ++ join_with (codes "\n\n") (map lines_of errors)
unfolding keys_loop
keys_lem count index message [] h = sym (append-nil message)
keys_lem count index message ((k, es) ∷ []) h =
    let last : not (index == (count - 1)) ≡ false = ground arith in
    rw last (append-nil _ ∙ errors_lem k (length es) 0 message es (omega arith))
keys_lem count index message ((k, es) ∷ f ∷ fs) h =
    let more : not (index == (count - 1)) ≡ true = ground arith in
    let e = errors_lem k (length es) 0 message es (omega arith) in
    rw (more, e)
      (keys_lem count (suc index) ((message ++ lines_of (k, es)) ++ codes "\n\n") (f ∷ fs)
          (omega (arith, h))
        ∙ (append_assoc (message ++ lines_of (k, es)) (codes "\n\n") _
            ∙ append_assoc message (lines_of (k, es)) _))

array_lem :
    (last index : ℕ) (message : Text) (errors : List Text)
    → index + length errors ≡ suc last
    → array_loop last index (some message) errors ≡ some (message ++ join_with (codes "\n") errors)
unfolding array_loop
array_lem last index message [] h = ap some (sym (append-nil message))
array_lem last index message (e ∷ []) h =
    let done : ltb index last ≡ false = ground arith in
    rw done (ap (λ t. some (message ++ t)) (append-nil e))
array_lem last index message (e ∷ f ∷ es) h =
    let more : ltb index last ≡ true = ground arith in
    rw more (
      array_lem last (suc index) (message ++ (e ++ codes "\n")) (f ∷ es) (omega (arith, h))
      ∙ ap some (behind message e (codes "\n") _))

array_first :
    (e : Text) (es : List Text)
    → array_loop (length (e ∷ es) - 1) 0 none (e ∷ es)
      ≡ some (codes "undefined" ++ join_with (codes "\n") (e ∷ es))
unfolding array_loop
array_first e es = array_lem (length (e ∷ es) - 1) 0 (codes "undefined") (e ∷ es) (omega arith)

-- When the server refuses to add a MIP after its validation, the message has a line for each error
-- of a key, that begins with the key, and an empty line between the keys. An array of errors, if
-- there are any, is a line for each error, but the first begins with `undefined`.
pub add_failed-lines :
    (errors : Errors) (first : Text) (others : List Text)
    → (add_failed (post_object errors)
        ≡ display (join_with (codes "\n\n") (map lines_of errors)) ∷ [])
      × (add_failed (post_array (first ∷ others))
          ≡ display (codes "undefined" ++ join_with (codes "\n") (first ∷ others)) ∷ [])
unfolding add_failed construct_post_validation_error_message
add_failed-lines errors first others = (
  ap (λ t. display t ∷ []) (keys_lem (length errors) 0 [] errors (omega arith)),
  ap (λ t. display (shown t) ∷ []) (array_first first others),
)
