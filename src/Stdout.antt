-- ===== src/Stdout.antt =====
-- web/frontend/src/app/modules/server-stdout/server-stdout.component.ts: the dialog with the console
-- output of one background job.
pub mod Logs
pub mod Retry
mod Tests
use Prim.Native.String
use text.Mathlib.Text.{◌==◌}
use hellogit.Common.{
  String, Bool, true, false, Option, none, some, List, [], ◌∷◌, ◌++◌, if◌then◌else◌,
}
use hellogit.Rest.{Reply, ok, error_message_class, http_error}
use hellogit.Snackbar.{success_message, error_message}

-- web/frontend/src/app/modules/server-stdout/classes/job-log.class.ts
pub record JobLog : Type 0 where
  pub color : String
  pub job_name : String
  pub jobid : String
  pub log : String

-- `allow_retry` is undefined at first.
pub record Console : Type 0 where
  pub job_finished : Bool
  pub scroll_status : Bool
  pub allow_retry : Option Bool
  pub job_logs : List JobLog
  pub job_id : String

pub data Effect : Type 0 where
  get_job_logs get_job delete_job retry_job : String → Effect
  snackbar : String → Effect
  job_deleted scroll_to_bottom : Effect

abbrev pub Outcome : Type 0
Outcome = Console × List Effect

abbrev pub constructed : String → Console
constructed job_id = record {
  job_finished = false;
  scroll_status = true;
  allow_retry = none;
  job_logs = [];
  job_id = job_id;
}

unfoldable pub ng_on_init : Console → Outcome
ng_on_init s = (s, get_job_logs s.job_id ∷ get_job s.job_id ∷ [])

unfoldable pub start_scroll : Console → Outcome
start_scroll s = (record s { scroll_status = true }, [])

unfoldable pub stop_scroll : Console → Outcome
stop_scroll s = (record s { scroll_status = false }, [])

-- The two confirm dialogs closed, with `response === 'Confirm'` or not.
unfoldable pub stop_job_closed : Bool → Console → Outcome
stop_job_closed confirmed s = (s, if confirmed then delete_job s.job_id ∷ [] else [])

unfoldable pub retry_job_closed : Bool → Console → Outcome
retry_job_closed confirmed s = (s, if confirmed then retry_job s.job_id ∷ [] else [])

-- A message of the websocket: any job's log.
unfoldable pub on_message : JobLog → Console → Outcome
on_message m s =
    if m.jobid == s.job_id
    then (
      record s { job_logs = s.job_logs ++ m ∷ [] },
      if s.scroll_status then scroll_to_bottom ∷ [] else [],
    )
    else (s, [])

unfoldable pub replied_job_logs : Reply (List JobLog) → Console → Outcome
replied_job_logs (ok response) s = (record s { job_logs = response }, scroll_to_bottom ∷ [])
replied_job_logs (error_message_class m) s = (s, snackbar m ∷ [])
replied_job_logs http_error s = (s, snackbar (error_message "retrieving job logs") ∷ [])

-- `allow_retry` from the status of the job, which may be missing.
unfoldable pub retry_allowed : Option String → Option Bool → Option Bool
retry_allowed none before = some false
retry_allowed (some status) before =
    if status == "started" then some false else if status == "failed" then some true else before

-- The answer is the job's status, or `none` for an object with no keys.
unfoldable pub replied_job_get : Reply (Option (Option String)) → Console → Outcome
unfolding retry_allowed
replied_job_get (ok none) s = (
  record s { allow_retry = retry_allowed none s.allow_retry; job_finished = true },
  snackbar "Job has already finished or is no longer available" ∷ [],
)
replied_job_get (ok (some status)) s =
    (record s { allow_retry = retry_allowed status s.allow_retry; job_finished = false }, [])
replied_job_get (error_message_class m) s = (s, snackbar m ∷ [])
replied_job_get http_error s = (s, snackbar (error_message "retrieving job") ∷ [])

-- The answer is the `job_id` of the deleted job.
unfoldable pub replied_job_delete : Reply String → Console → Outcome
replied_job_delete (ok id) s = (
  record s { job_logs = [] },
  job_deleted ∷ snackbar (success_message (String.◌++◌ "deleted job " id)) ∷ [],
)
replied_job_delete (error_message_class m) s = (s, snackbar m ∷ [])
replied_job_delete http_error s = (s, snackbar (error_message "requesting delete job") ∷ [])

unfoldable pub replied_job_retry : Reply String → Console → Outcome
replied_job_retry (ok id) s = (
  record s { job_logs = [] },
  get_job s.job_id ∷ snackbar (success_message "requested system to retry job.") ∷ [],
)
replied_job_retry (error_message_class m) s = (s, snackbar m ∷ [])
replied_job_retry http_error s = (s, snackbar (error_message "requesting retry job") ∷ [])

pub data Event : Type 0 where
  init scroll_on scroll_off : Event
  close_stop close_retry : Bool → Event
  message : JobLog → Event
  reply_logs : Reply (List JobLog) → Event
  reply_get : Reply (Option (Option String)) → Event
  reply_delete reply_retry : Reply String → Event

unfoldable pub handle : Event → Console → Outcome
handle init s = ng_on_init s
handle scroll_on s = start_scroll s
handle scroll_off s = stop_scroll s
handle (close_stop confirmed) s = stop_job_closed confirmed s
handle (close_retry confirmed) s = retry_job_closed confirmed s
handle (message m) s = on_message m s
handle (reply_logs r) s = replied_job_logs r s
handle (reply_get r) s = replied_job_get r s
handle (reply_delete r) s = replied_job_delete r s
handle (reply_retry r) s = replied_job_retry r s

-- A run of the dialog, without its effects.
unfoldable pub run : List Event → Console → Console
run [] s = s
run (e ∷ es) s = run es (handle e s).0
