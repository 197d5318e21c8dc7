-- ===== src/Stdout/Logs.antt =====
-- Which logs the dialog shows.
use text.Mathlib.Text.{◌==◌}
use text.Mathlib.TextEquality.{eq_iff}
use mathlib.Core.List.{append_assoc, append-nil}
use mathlib.Core.Bool.{and-eq-true_iff}
use hellogit.Common.{
  All-snoc, ◌≡◌, refl, sym, subst, ◌∙◌, String, Bool, true, false, List, [], ◌∷◌, ◌++◌,
  if◌then◌else◌, arith, every, All, inl, inr, Bool-cases, none, some,
}
use hellogit.Rest.{ok}
use hellogit.Stdout.{
  JobLog, Console, Event, init, message, reply_logs, reply_get, reply_delete, reply_retry,
  ng_on_init, start_scroll, stop_scroll, stop_job_closed, retry_job_closed, on_message,
  replied_job_logs, replied_job_get, replied_job_delete, replied_job_retry, handle, run,
}

-- The logs that an event replaces the shown ones by, or adds to them, for the job `id`.
abbrev pub shown_after : String → Event → List JobLog → List JobLog
shown_after id (message m) logs = if m.jobid == id then logs ++ m ∷ [] else logs
shown_after id (reply_logs (ok response)) logs = response
shown_after id (reply_delete (ok deleted)) logs = []
shown_after id (reply_retry (ok retried)) logs = []
shown_after id _ logs = logs

handle-shown :
    (e : Event) (s : Console)
    → ((handle e s).0.job_logs ≡ shown_after s.job_id e s.job_logs)
      × ((handle e s).0.job_id ≡ s.job_id)
unfolding handle ng_on_init start_scroll stop_scroll stop_job_closed retry_job_closed on_message
    replied_job_logs replied_job_get replied_job_delete replied_job_retry
handle-shown init s = (refl, refl)
handle-shown (message m) s = ground arith
handle-shown (reply_logs (ok r)) s = (refl, refl)
handle-shown (reply_logs _) s = (refl, refl)
handle-shown (reply_get (ok none)) s = (refl, refl)
handle-shown (reply_get (ok (some x))) s = (refl, refl)
handle-shown (reply_get _) s = (refl, refl)
handle-shown (reply_delete (ok r)) s = (refl, refl)
handle-shown (reply_delete _) s = (refl, refl)
handle-shown (reply_retry (ok r)) s = (refl, refl)
handle-shown (reply_retry _) s = (refl, refl)
handle-shown _ s = (refl, refl)

-- The logs of the job among the messages of a run, in order.
abbrev pub own_messages : String → List Event → List JobLog
own_messages id [] = []
own_messages id (message m ∷ es) =
    if m.jobid == id then m ∷ own_messages id es else own_messages id es
own_messages id (_ ∷ es) = own_messages id es

-- The events that put other logs in place of the shown ones.
abbrev pub only_adds : Event → Bool
only_adds (reply_logs (ok _)) = false
only_adds (reply_delete (ok _)) = false
only_adds (reply_retry (ok _)) = false
only_adds _ = true

shown_after-own :
    (id : String) (e : Event) (es : List Event) (logs : List JobLog)
    → only_adds e ≡ true
    → shown_after id e logs ++ own_messages id es ≡ logs ++ own_messages id (e ∷ es)
shown_after-own id (message m) es logs h = elim (Bool-cases (m.jobid == id)) [
  | inl own ↦ rw own (append_assoc logs (m ∷ []) (own_messages id es))
  | inr foreign ↦ rw foreign
]
shown_after-own id (reply_logs (ok r)) es logs h = cc
shown_after-own id (reply_delete (ok r)) es logs h = cc
shown_after-own id (reply_retry (ok r)) es logs h = cc
shown_after-own id (reply_logs _) es logs h = refl
shown_after-own id (reply_delete _) es logs h = refl
shown_after-own id (reply_retry _) es logs h = refl
shown_after-own id _ es logs h = refl

run-adds :
    (es : List Event) (s : Console)
    → every only_adds es ≡ true
    → (run es s).job_logs ≡ s.job_logs ++ own_messages s.job_id es
unfolding run
run-adds [] s h = sym (append-nil s.job_logs)
run-adds (e ∷ es) s h =
    let (here, later) = (and-eq-true_iff _ _).0 h in
    let (logs, id) = handle-shown e s in
    run-adds es (handle e s).0 later ∙ rw (logs, id) (shown_after-own s.job_id e es s.job_logs here)

-- From the answer to the request for the logs on, until they are requested or cleared again, the
-- dialog shows that answer and behind it the job's own messages in the order in which they came;
-- what it showed before is gone.
pub run-reply_logs :
    (response : List JobLog) (es : List Event) (s : Console)
    → every only_adds es ≡ true
    → (run (reply_logs (ok response) ∷ es) s).job_logs ≡ response ++ own_messages s.job_id es
unfolding run handle replied_job_logs
run-reply_logs response es s h = run-adds es (record s { job_logs = response }) h

-- An event brings no log of another job but in a message, which is dropped.
abbrev pub Honest : String → Event → Type 0
Honest id (reply_logs (ok response)) = All (λ (l : JobLog). l.jobid ≡ id) response
Honest id _ = Unit

shown_after-All :
    (id : String) (e : Event) (logs : List JobLog)
    → Honest id e
    → All (λ (l : JobLog). l.jobid ≡ id) logs
    → All (λ (l : JobLog). l.jobid ≡ id) (shown_after id e logs)
shown_after-All id (message m) logs h k = elim (Bool-cases (m.jobid == id)) [
  | inl own ↦ rw own (All-snoc (λ (l : JobLog). l.jobid ≡ id) logs m k ((eq_iff _ _).0 own))
  | inr foreign ↦ rw foreign k
]
shown_after-All id (reply_logs (ok r)) logs h k = h
shown_after-All id (reply_logs _) logs h k = k
shown_after-All id (reply_delete (ok r)) logs h k = tt
shown_after-All id (reply_delete _) logs h k = k
shown_after-All id (reply_retry (ok r)) logs h k = tt
shown_after-All id (reply_retry _) logs h k = k
shown_after-All id _ logs h k = k

-- If the server's answers hold the logs of the job that was asked for, the dialog never shows a log
-- of another job, whatever the websocket brings.
pub run-own :
    (es : List Event) (s : Console)
    → All (Honest s.job_id) es
    → All (λ (l : JobLog). l.jobid ≡ s.job_id) s.job_logs
    → All (λ (l : JobLog). l.jobid ≡ s.job_id) (run es s).job_logs
unfolding run
run-own [] s h k = k
run-own (e ∷ es) s (h, hs) k =
    let q = (handle e s).0 in
    let (logs, id) = handle-shown e s in
    subst (λ i. All (λ (l : JobLog). l.jobid ≡ i) (run es q).job_logs) id
      (run-own es q (rw id hs) (rw (id, logs) (shown_after-All s.job_id e s.job_logs h k)))
