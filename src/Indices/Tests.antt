-- ===== src/Indices/Tests.antt =====
-- The three actions of the page, and MinIO that is not configured and then is.
use hellogit.Common.{true, false, ◌≡◌, refl, some, List, [], ◌∷◌}
use hellogit.Rest.{ok, error_message_class}
use hellogit.Indices.{
  Action, Page, Event, get_all_indices, stepper_next, set_backup_option, constructed, next,
  stepper_change, indices_return_actions, replied_get_all_indices, run, ng_on_init, action_chosen,
  next_clicked, step_changed, all_indices, minio_checked,
}
use hellogit.Indices.Actions.{heard, heard_all, run-actions}

abbrev close : Action
close = record {
  action_value = "CloseIndices";
  action_name = some "Close";
  is_disabled = false;
  tool_tip = "";
}

abbrev backup : Action
backup = record {
  action_value = "BackupIndices";
  action_name = some "Backup and close";
  is_disabled = true;
  tool_tip = "MinIO is not configured.";
}

abbrev delete : Action
delete = record {
  action_value = "DeleteIndices";
  action_name = some "Delete";
  is_disabled = false;
  tool_tip = "";
}

abbrev page : Page
page = constructed (close ∷ backup ∷ delete ∷ [])

-- The step that the stepper goes to when the indices have come asks for no more.
no_loop :
    let chosen = record page { action = some "BackupIndices" } in
    let (asked, effects) = stepper_change 1 chosen in
    let (answered, moved) = replied_get_all_indices (ok ("one" ∷ [])) asked in
    (effects ≡ get_all_indices ∷ [])
    × (moved ≡ stepper_next ∷ [])
    × ((stepper_change 1 answered).1 ≡ [])
unfolding stepper_change next replied_get_all_indices indices_return_actions constructed
no_loop = (refl, refl, refl)

abbrev events : List Event
events =
    minio_checked (error_message_class "MinIO is down.")
    ∷ action_chosen (some "CloseIndices")
    ∷ next_clicked
    ∷ all_indices (ok ("one" ∷ "two" ∷ []))
    ∷ step_changed 1
    ∷ minio_checked (ok "")
    ∷ []

run-actions_example :
    (run events (ng_on_init page).0).actions
    ≡ close ∷ record backup { is_disabled = false; tool_tip = "" } ∷ delete ∷ []
unfolding heard_all heard set_backup_option constructed
run-actions_example = run-actions events page (close ∷ []) backup (delete ∷ []) refl refl refl
