-- ===== src/Indices.antt =====
-- web/frontend/src/app/modules/elasticsearch-index-management/elasticsearch-index-management.component.ts:
-- a stepper that asks for an action on indices of Elasticsearch, and then for the indices.
--
-- The stepper and the forms are Angular Material's. The stepper is asked to go on or to start again,
-- and tells of each change of its step.
pub mod Actions
mod Tests
use text.Mathlib.Text.{◌==◌ as str_eq}
use hellogit.Common.{
  ℕ, ◌==◌, String, Bool, true, false, not, ◌&&◌, Option, none, some, List, [], ◌∷◌, if◌then◌else◌,
}
use hellogit.Rest.{Reply, ok, error_message_class, http_error}

-- An option of the actions, of MAT_OPTION_ACTIONS.
pub record Action : Type 0 where
  pub action_value : String
  pub action_name : Option String
  pub is_disabled : Bool
  pub tool_tip : String

-- The forms are known by the action, null at first, and the indices that are selected.
pub record Page : Type 0 where
  pub actions : List Action
  pub indices : List String
  pub is_loading : Bool
  pub next_triggered : Bool
  pub instructions : Option String
  pub action : Option String
  pub index_list : List String

pub data Effect : Type 0 where
  minio_check get_closed_indices get_all_indices stepper_next stepper_reset : Effect
  index_management : Option String → List String → Effect
  display error_snackbar : String → Effect

abbrev pub Outcome : Type 0
Outcome = Page × List Effect

-- `set_backup_option_`: the first option of that value.
unfoldable pub set_backup_option : Bool → String → List Action → List Action
set_backup_option disabled tool_tip [] = []
set_backup_option disabled tool_tip (a ∷ others) =
    let rest = set_backup_option disabled tool_tip others in
    if str_eq a.action_value "BackupIndices"
    then record a { is_disabled = disabled; tool_tip = tool_tip } ∷ others
    else a ∷ rest

unfoldable pub constructed : List Action → Page
constructed actions = record {
  actions = actions;
  indices = [];
  is_loading = false;
  next_triggered = false;
  instructions = none;
  action = none;
  index_list = [];
}

unfoldable pub ng_on_init : Page → Outcome
unfolding set_backup_option
ng_on_init p = (
  record p { action = none; index_list = []; actions = set_backup_option true "" p.actions },
  minio_check ∷ [],
)

unfoldable pub is_index_list_empty : Page → Bool
is_index_list_empty p = elim p.index_list [ [] ↦ true | i ∷ is ↦ false ]

-- `reset_form_`: new forms take the place of those whose directives it resets after.
unfoldable pub reset_form : Page → Outcome
reset_form p = (
  record p { is_loading = false; indices = []; action = none; index_list = [] },
  stepper_reset ∷ [],
)

unfoldable pub back : Page → Outcome
unfolding reset_form
back p = reset_form p

abbrev is_action : String → Option String → Bool
is_action name none = false
is_action name (some a) = str_eq a name

unfoldable pub next : Page → Outcome
unfolding reset_form
next p =
    if is_action "DeleteIndices" p.action
    then (
      record p {
        instructions = some "Select one or more Index to delete and click Update.";
        is_loading = true;
      },
      get_closed_indices ∷ [],
    )
    else if is_action "CloseIndices" p.action
    then (
      record p {
        instructions = some "Select one or more Index to close and click Update.";
        is_loading = true;
      },
      get_all_indices ∷ [],
    )
    else if is_action "BackupIndices" p.action
    then (
      record p {
        instructions = some "Select one or more Index to backup and click Update.";
        is_loading = true;
      },
      get_all_indices ∷ [],
    )
    else reset_form p

-- The step changed to that of an index.
unfoldable pub stepper_change : ℕ → Page → Outcome
unfolding next
stepper_change selected_index p =
    if selected_index == 1 && not p.next_triggered
    then next p
    else (record p { next_triggered = false }, [])

unfoldable pub update : Page → Outcome
update p = (p, index_management p.action p.index_list ∷ [])

-- `indices_return_actions_`
unfoldable pub indices_return_actions : List String → Page → Outcome
indices_return_actions response p =
    (record p { indices = response; is_loading = false; next_triggered = true }, stepper_next ∷ [])

unfoldable pub replied_get_closed_indices : Reply (List String) → Page → Outcome
unfolding indices_return_actions
replied_get_closed_indices (ok response) p = indices_return_actions response p
replied_get_closed_indices (error_message_class m) p =
    (record p { is_loading = false }, display m ∷ [])
replied_get_closed_indices http_error p =
    (record p { is_loading = false }, error_snackbar "getting closed indices" ∷ [])

unfoldable pub replied_get_all_indices : Reply (List String) → Page → Outcome
unfolding indices_return_actions
replied_get_all_indices (ok response) p = indices_return_actions response p
replied_get_all_indices (error_message_class m) p =
    (record p { is_loading = false }, display m ∷ [])
replied_get_all_indices http_error p =
    (record p { is_loading = false }, error_snackbar "getting indices" ∷ [])

-- The answer to `index_management`: its message, if it is a SuccessMessageClass.
unfoldable pub replied_index_management : Reply (Option String) → Page → Outcome
unfolding reset_form
replied_index_management (ok none) p = (p, [])
replied_index_management (ok (some message)) p =
    let (q, effects) = reset_form p in (q, display message ∷ effects)
replied_index_management (error_message_class m) p = (p, display m ∷ [])
replied_index_management http_error p =
    (p, error_snackbar "calling elasticsearch index management" ∷ [])

unfoldable pub replied_minio_check : Reply String → Page → Outcome
unfolding set_backup_option
replied_minio_check (ok response) p =
    (record p { actions = set_backup_option false "" p.actions }, [])
replied_minio_check (error_message_class m) p =
    (record p { actions = set_backup_option true m p.actions }, display m ∷ [])
replied_minio_check http_error p = (p, error_snackbar "checking minio" ∷ [])

pub data Event : Type 0 where
  action_chosen : Option String → Event
  index_list_chosen : List String → Event
  next_clicked back_clicked update_clicked : Event
  step_changed : ℕ → Event
  closed_indices all_indices : Reply (List String) → Event
  managed : Reply (Option String) → Event
  minio_checked : Reply String → Event

unfoldable pub handle : Event → Page → Outcome
unfolding next back stepper_change update replied_get_closed_indices replied_get_all_indices
    replied_index_management replied_minio_check
handle (action_chosen action) p = (record p { action = action }, [])
handle (index_list_chosen list) p = (record p { index_list = list }, [])
handle next_clicked p = next p
handle back_clicked p = back p
handle update_clicked p = update p
handle (step_changed n) p = stepper_change n p
handle (closed_indices r) p = replied_get_closed_indices r p
handle (all_indices r) p = replied_get_all_indices r p
handle (managed r) p = replied_index_management r p
handle (minio_checked r) p = replied_minio_check r p

unfoldable pub run : List Event → Page → Page
unfolding handle
run [] p = p
run (e ∷ es) p = run es (handle e p).0
