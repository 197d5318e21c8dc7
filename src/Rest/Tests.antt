-- ===== src/Rest/Tests.antt =====
-- The theorem on failed calls, applied.
use hellogit.Common.{◌≡◌, refl, ◌↔◌, Bool, none, some}
use hellogit.Rest.{error_message_class, HttpErrorResponse, handle_error, answer, choose, by_body}
use hellogit.Rest.Errors.{Explains, Carries, handle_error-answer}

abbrev refusal : HttpErrorResponse
refusal = record {
  error = some (record {
    error_message = some "Rule set is syncing";
    post_validation = none;
    status = none;
    messages = none;
    message = none;
    json = "{}";
  });
  status = "500";
  status_text = "Error";
}

shows : (handle_error "sync" (some refusal)).0 ≡ "Rule set is syncing"
unfolding handle_error by_body choose
shows = refl

handle_error-answer_example :
    let (shown, thrown) = handle_error "sync" (some refusal) in
    ((answer {A = Bool} thrown ≡ error_message_class "x") ↔ Explains (some refusal) "x")
    × Carries thrown shown
handle_error-answer_example = handle_error-answer "sync" (some refusal) "x"
