-- ===== src/Progress/Tests.antt =====
-- The theorems on progress bars, applied.
use hellogit.Common.{
  ◌≡◌, refl, ◌↔◌, String, Bool, true, false, none, some, List, [], ◌∷◌, if◌then◌else◌,
}
use hellogit.Progress.{
  Job, constructed, Bars, Circles, Event, click, window, run, click_job_state, toggled,
  close_circles, close_all, close_drop_down, validate_drop_down_job,
}
use hellogit.Progress.OneOpen.{OneOpen, run-OneOpen}
use hellogit.Progress.Clicking.{IsFree, click_job_state_iff}

abbrev job : String → Bool → Job
job id error = record {
  complete = true;
  description = "d";
  error = error;
  exec_type = "t";
  inprogress = false;
  job_id = some id;
  message = false;
  name = "n";
  node_id = "1";
  pending = false;
  id = id;
}

abbrev circles : Circles
circles = record { node_management = some (0 ∷ 1 ∷ []); mip_management = none }

abbrev events : List Event
events =
    click 0 (job "a" false) ∷ click 1 (job "b" true) ∷ window true ∷ click 0 (job "a" false) ∷ []

run-OneOpen_example : OneOpen circles (run circles events (λ _. constructed))
run-OneOpen_example = run-OneOpen circles events (refl, (refl, (tt, (refl, tt))))

-- The drop-down of the job is open.
abbrev opened : Bars
opened _ = record { toggle_drop_down = true; current_toggle_job_ = some "a" }

click_job_state_iff_example :
    let after = click_job_state circles 1 (job "b" true) opened 1 in
    ((after.toggle_drop_down ≡ true) ↔ IsFree (job "b" true) (some "a"))
    × (after.current_toggle_job_ ≡ some (if after.toggle_drop_down then "b" else ""))
click_job_state_iff_example = click_job_state_iff circles 1 (job "b" true) opened refl

-- A click on the state whose drop-down is open leaves it open.
stays_open : (click_job_state circles 0 (job "a" false) opened 0).toggle_drop_down ≡ true
unfolding click_job_state toggled close_circles close_all close_drop_down validate_drop_down_job
stays_open = refl
