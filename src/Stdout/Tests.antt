-- ===== src/Stdout/Tests.antt =====
-- A dialog for one job, and the theorems at it.
use hellogit.Common.{◌≡◌, refl, String, true, some, Option, List, [], ◌∷◌, All, map}
use hellogit.Rest.{ok}
use hellogit.Stdout.{
  JobLog, Console, Event, constructed, handle, run, message, reply_logs, reply_get, reply_retry,
  scroll_off, on_message, replied_job_logs, replied_job_get, replied_job_retry, stop_scroll,
}
use hellogit.Stdout.Logs.{run-own}

abbrev line : String → String → JobLog
line job text = record { color = "white"; job_name = "setup"; jobid = job; log = text }

abbrev messages : List Event
messages =
    message (line "7" "two")
    ∷ message (line "8" "other")
    ∷ scroll_off
    ∷ message (line "7" "three")
    ∷ []

shown_logs :
    map
      (λ (l : JobLog). l.log)
      (run
        (message (line "7" "zero") ∷ reply_logs (ok (line "7" "one" ∷ [])) ∷ messages)
        (constructed "7")).job_logs
    ≡ "one" ∷ "two" ∷ "three" ∷ []
unfolding run handle on_message replied_job_logs stop_scroll
shown_logs = refl

run-own_example : All (λ (l : JobLog). l.jobid ≡ "7") (run messages (constructed "7")).job_logs
run-own_example = run-own messages (constructed "7") (tt, (tt, (tt, (tt, tt)))) tt

-- The job has failed and its retry is queued.
abbrev retried : Console
retried = run (reply_get (ok (some (some "failed"))) ∷ reply_retry (ok "7") ∷ []) (constructed "7")

abbrev queued : Option String
queued = some "queued"

still_offered : (handle (reply_get (ok (some queued))) retried).0.allow_retry ≡ some true
unfolding handle run replied_job_get replied_job_retry
still_offered = refl
