-- ===== src/Progress.antt =====
-- web/frontend/src/app/modules/global-components/components/node-state-progress-bar/
-- node-state-progress-bar.component.ts: the row of job states of a node, one bar for each node or
-- MIP of a page. Only one drop-down of the page is meant to be open.
pub mod OneOpen
pub mod Clicking
mod Tests
use text.Mathlib.Text.{◌==◌ as str_eq}
use hellogit.Common.{
  ℕ, String, Bool, true, false, not, ◌&&◌, ◌||◌, Option, none, some, List, [], ◌∷◌, if◌then◌else◌,
  update,
}
use hellogit.Rest.{Reply, ok, error_message_class, http_error}
use hellogit.Snackbar.{success_message, error_message}

-- web/frontend/src/app/classes/job.class.ts
pub record Job : Type 0 where
  pub complete : Bool
  pub description : String
  pub error : Bool
  pub exec_type : String
  pub inprogress : Bool
  pub job_id : Option String
  pub message : Bool
  pub name : String
  pub node_id : String
  pub pending : Bool
  pub id : String

-- ERROR, COMPLETE, IN_PROGRESS, PENDING and UNKNOWN
pub data Status : Type 0 where
  failed complete in_progress pending unknown : Status

-- CANCEL, CHECK_CIRCLE, TIMELAPSE and RADIO_BUTTON_CHECKED
pub data Icon : Type 0 where
  cancel check_circle timelapse radio_button_checked : Icon

unfoldable pub get_status : Job → Status
get_status job =
    if job.error
    then failed
    else if job.complete
    then complete
    else if job.inprogress
    then in_progress
    else if job.pending
    then pending
    else unknown

-- `none` is undefined.
unfoldable pub get_icon : Job → Option Icon
get_icon job =
    if job.error
    then some cancel
    else if job.complete
    then some check_circle
    else if job.inprogress
    then some timelapse
    else if job.pending
    then some radio_button_checked
    else none

-- `current_toggle_job_` is undefined at first.
pub record Bar : Type 0 where
  pub toggle_drop_down : Bool
  pub current_toggle_job_ : Option String

abbrev pub constructed : Bar
constructed = record { toggle_drop_down = false; current_toggle_job_ = none }

-- The bars of a page, by their place, and what `progress_circles` of the node and of the MIP
-- management hold.
abbrev pub Bars : Type 0
Bars = ℕ → Bar

pub record Circles : Type 0 where
  pub node_management : Option (List ℕ)
  pub mip_management : Option (List ℕ)

abbrev pub is_set : Option String → Bool
is_set none = false
is_set (some s) = not (str_eq s "")

unfoldable pub validate_drop_down_job : Job → Bar → Bool
validate_drop_down_job job bar = elim bar.current_toggle_job_ [
  | none ↦ false
  | some s ↦ str_eq job.id s
]

unfoldable pub close_drop_down : Bar → Bar
close_drop_down bar = record bar { toggle_drop_down = false }

-- `for (const progress of …) progress.close_drop_down_()`
unfoldable pub close_all : List ℕ → Bars → Bars
unfolding close_drop_down
close_all [] bars = bars
close_all (a ∷ bs) bars = close_all bs (update bars a (close_drop_down (bars a)))

unfoldable pub close_circles : Option (List ℕ) → Bars → Bars
close_circles none bars = bars
close_circles (some bs) bars = close_all bs bars

-- What the rest of `click_job_state` makes of the bar that was clicked.
unfoldable pub toggled : Job → Bar → Bar
unfolding validate_drop_down_job
toggled job bar =
    let toggle =
      if not (is_set bar.current_toggle_job_) || validate_drop_down_job job bar
      then not bar.toggle_drop_down
      else bar.toggle_drop_down in
    record { toggle_drop_down = toggle; current_toggle_job_ = some (if toggle then job.id else "") }

unfoldable pub click_job_state : Circles → ℕ → Job → Bars → Bars
unfolding close_circles toggled
click_job_state circles k job bars =
    let closed =
      close_circles circles.mip_management (close_circles circles.node_management bars) in
    update closed k (toggled job (closed k))

-- The window's click listener of a bar; `icon` says that the target is a `mat-icon`.
unfoldable pub window_click : Bool → Bar → Bar
window_click icon bar =
    if bar.toggle_drop_down && not icon
    then record { toggle_drop_down = false; current_toggle_job_ = some "" }
    else bar

pub data Effect : Type 0 where
  open_console : String → Effect
  job_retry : Option String → Effect
  snackbar : String → Effect

unfoldable pub open_job_server_std_out_console : Job → List Effect
open_job_server_std_out_console job = elim job.job_id [ none ↦ [] | some id ↦ open_console id ∷ [] ]

unfoldable pub retry : Job → List Effect
retry job = job_retry job.job_id ∷ []

unfoldable pub replied_job_retry : Reply (Unit {0}) → List Effect
replied_job_retry (ok _) = snackbar (success_message "requested system to retry job.") ∷ []
replied_job_retry (error_message_class m) = snackbar m ∷ []
replied_job_retry http_error = snackbar (error_message "requesting retry job") ∷ []

-- RETRY_DISABLED and RETRY
unfoldable pub retry_button_tooltip : Job → String
retry_button_tooltip job = if job.error then "Retry Disabled" else "Retry"

pub data Event : Type 0 where
  click : ℕ → Job → Event
  window : Bool → Event

unfoldable pub handle : Circles → Event → Bars → Bars
handle circles (click k job) bars = click_job_state circles k job bars
handle circles (window icon) bars = λ b. window_click icon (bars b)

unfoldable pub run : Circles → List Event → Bars → Bars
run circles [] bars = bars
run circles (e ∷ es) bars = run circles es (handle circles e bars)
