-- ===== src/Rest/Errors.antt =====
-- What the callers of `handleError` can rely on.
use hellogit.Common.{◌≡◌, refl, sym, subst, ◌↔◌, String, Bool, Option, none, some, arith}
use hellogit.Rest.{
  error_message_class, Body, HttpErrorResponse, Thrown, error_message, post_validation, truthy,
  choose, by_body, handle_error, answer,
}

-- The error's body has a message of its own.
abbrev pub Explains : Option HttpErrorResponse → String → Type 0
Explains none m = ⊥
Explains (some r) m = (body : Body) × (r.error ≡ some body) × (truthy body.error_message ≡ some m)

-- What is thrown carries the text that was shown, where it carries one.
abbrev pub Carries : Thrown → String → Type 0
Carries (error_message m) shown = m ≡ shown
Carries (post_validation m) shown = m ≡ shown
Carries _ shown = Unit

error_of : Option Body → Option String
error_of none = none
error_of (some body) = truthy body.error_message

choose-Carries :
    (r : HttpErrorResponse) (b : Body) (e p s m : Option String)
    → let (shown, thrown) = choose r b e p s m in Carries thrown shown
unfolding choose
choose-Carries r b (some x) _ _ _ = refl
choose-Carries r b none (some x) _ _ = refl
choose-Carries r b none none (some x) (some y) = tt
choose-Carries r b none none (some x) none = tt
choose-Carries r b none none none _ = tt

choose_message :
    (r : HttpErrorResponse) (b : Body) (e p s ms : Option String) (m : String)
    → (answer {A = Bool} (choose r b e p s ms).1 ≡ error_message_class m) ↔ (e ≡ some m)
unfolding choose answer
choose_message r b (some x) _ _ _ m = ground arith
choose_message r b none (some x) _ _ m = ground arith
choose_message r b none none (some x) (some y) m = ground arith
choose_message r b none none (some x) none m = ground arith
choose_message r b none none none _ m = ground arith

by_body_message :
    (r : HttpErrorResponse) (b : Option Body) (m : String)
    → (answer {A = Bool} (by_body r b).1 ≡ error_message_class m)
      ↔ ((body : Body) × (b ≡ some body) × (truthy body.error_message ≡ some m))
unfolding by_body answer error_of
by_body_message r none m = (λ h. cc, λ t. cc (t.1))
by_body_message r (some body) m =
    let (to, from) =
      choose_message r body (truthy body.error_message) (truthy body.post_validation)
        (truthy body.status) (truthy body.messages) m in
    (
      (λ h. (body, refl, to h)),
      λ (c, same, e). from (subst (λ (b : Option Body). error_of b ≡ some m) (sym same) e),
    )

by_body-Carries :
    (r : HttpErrorResponse) (b : Option Body)
    → let (shown, thrown) = by_body r b in Carries thrown shown
unfolding by_body
by_body-Carries r none = tt
by_body-Carries r (some body) =
    choose-Carries r body (truthy body.error_message) (truthy body.post_validation)
      (truthy body.status) (truthy body.messages)

-- A failed call answers its component with an ErrorMessageClass of a text exactly when the server's
-- body has that text, not empty, as its `error_message`; and an error that carries a message carries
-- the one that the snackbar shows.
pub handle_error-answer :
    (operation : String) (r : Option HttpErrorResponse) (m : String)
    → let (shown, thrown) = handle_error operation r in
      ((answer {A = Bool} thrown ≡ error_message_class m) ↔ Explains r m) × Carries thrown shown
unfolding handle_error answer
handle_error-answer operation none m = (((λ h. cc), λ h. absurd h), tt)
handle_error-answer operation (some r) m = (by_body_message r r.error m, by_body-Carries r r.error)
