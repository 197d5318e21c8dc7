-- ===== src/Rest.antt =====
-- web/frontend/src/app/services/abstract/api.service.ts: `handleError`, which every service applies to
-- a REST call that failed, and what the component that made the call is answered.
pub mod Errors
mod Tests
use Prim.Native.String
use text.Mathlib.Text.{◌==◌ as str_eq}
use hellogit.Common.{
  String, Bool, true, false, not, ◌&&◌, Option, none, some, List, [], ◌∷◌, if◌then◌else◌,
}

-- A value, an ErrorMessageClass, or any other error that `handleError` throws.
pub data Reply {ℓ} (A : Type ℓ) : Type ℓ where
  ok : A → Reply A
  error_message_class : String → Reply A
  http_error : Reply A

pub data IsError {A : Type 0} : Reply A → Type 0 where
  refused : (m : String) → IsError (error_message_class m)
  unanswered : IsError http_error

-- The fields of an error's body that the code tests, and the JSON of the whole body. An array or an
-- object, as post_validation and messages can be, stands as its JSON, which is not empty, as it is
-- not false.
pub record Body : Type 0 where
  pub error_message : Option String
  pub post_validation : Option String
  pub status : Option String
  pub messages : Option String
  pub message : Option String
  pub json : String

-- HttpErrorResponse, with its status as text
pub record HttpErrorResponse : Type 0 where
  pub error : Option Body
  pub status : String
  pub status_text : String

-- ErrorMessageClass, PostValidationClass, ValidationErrorClass, and the argument itself
pub data Thrown : Type 0 where
  error_message : String → Thrown
  post_validation : String → Thrown
  validation_error : String → String → Thrown
  response : HttpErrorResponse → Thrown
  undef : Thrown

-- A field that is not missing, null or empty.
abbrev pub truthy : Option String → Option String
truthy none = none
truthy (some s) = if str_eq s "" then none else some s

abbrev append3 : String → String → String → String
append3 a b c = String.◌++◌ a (String.◌++◌ b c)

-- `httpErrorResponse.error`'s last two branches: its message, or the status.
unfoldable pub by_message : HttpErrorResponse → Option Body → String
by_message r none = String.◌++◌ "An error has occurred: " (append3 r.status "-" r.status_text)
by_message r (some body) = elim (truthy body.message) [
  | none ↦ String.◌++◌ "An error has occurred: " (append3 r.status "-" r.status_text)
  | some m ↦ m
]

-- The tests of `handleError` on the body's error_message, post_validation, status and messages.
unfoldable pub choose :
    HttpErrorResponse
    → Body
    → Option String
    → Option String
    → Option String
    → Option String
    → String × Thrown
choose r body (some m) _ _ _ = (m, error_message m)
choose r body none (some m) _ _ = (m, post_validation m)
choose r body none none (some s) (some ms) = (body.json, validation_error s ms)
choose r body none none (some s) none = (by_message r (some body), response r)
choose r body none none none _ = (by_message r (some body), response r)

unfoldable pub by_body : HttpErrorResponse → Option Body → String × Thrown
by_body r none = (by_message r none, response r)
by_body r (some body) =
    choose r body (truthy body.error_message) (truthy body.post_validation) (truthy body.status)
      (truthy body.messages)

-- `handleError`: the text of the snackbar, and what is thrown. (What is written to the console is
-- left out.)
unfoldable pub handle_error : String → Option HttpErrorResponse → String × Thrown
unfolding by_body
handle_error operation none = (String.◌++◌ "An error has occurred: " operation, undef)
handle_error operation (some r) = by_body r r.error

-- What an error callback tells apart: `error instanceof ErrorMessageClass`.
unfoldable pub answer {ℓ} : {A : Type ℓ} → Thrown → Reply A
answer (error_message m) = error_message_class m
answer _ = http_error
