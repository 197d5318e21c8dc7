-- ===== src/Agents/Actions.antt =====
-- The clicks of agent-builder-chooser.component.ts and its dialogs that closed.
use hellogit.Common.{
  Text, codes, text_eq, String, ℕ, Bool, true, false, not, any, keep, get_elem?, Option, none, some,
  List, [], ◌∷◌, ◌++◌, update,
}
use hellogit.Agents.Types.{
  About, Installer, AppConfig, Page, Action, install, reinstall, uninstall, uninstalls, Outcome,
  get_chart_status, get_configs, get_app_configs, get_ip_target_list, generate, ask_credentials,
  open_details, display, type_error,
}

abbrev no_about : About
no_about = record {
  list_id = none;
  name = [];
  protocol = [];
  ntlm_port = [];
  ntlm_domain_name = [];
  smb_port = [];
  smb_domain_name = [];
}

unfoldable pub constructed : Page
constructed = record {
  installers = none;
  installer_selection = none;
  lists_table = none;
  ip_target_selection = none;
  app_configs = none;
  is_downloading = false;
  hosts = λ _. record { hostname = none; state = []; last_state_change = [] };
  lists = λ _. record { about = no_about; targets = none };
  rows = λ _. record { config = 0; host_list = []; expanded = false };
  next = 0;
}

unfoldable pub ng_on_init : Page → Outcome
ng_on_init p = (p, get_chart_status ∷ get_configs ∷ get_ip_target_list false ∷ get_app_configs ∷ [])

-- The message `refresh` of the websocket
unfoldable pub on_refresh : Page → Outcome
on_refresh p = (p, get_ip_target_list true ∷ [])

-- `includes`
abbrev includes_text : List Text → Text → Bool
includes_text names t = any (λ n. text_eq n t) names

-- None where the filter throws, before the configurations of applications have come.
unfoldable pub app_configs_with_custom_packages : Installer → Page → Option (List AppConfig)
app_configs_with_custom_packages c p =
    let package_names : List Text = elim c.custom_packages [ none ↦ [] | some names ↦ names ] in
    elim p.app_configs [
      | none ↦ none
      | some acs ↦ some (keep (λ (ac : AppConfig). includes_text package_names ac.app_name) acs)
    ]

abbrev is_filled {ℓ} : {A : Type ℓ} → List A → Bool
is_filled [] = false
is_filled (x ∷ xs) = true

unfoldable pub check_custom_packages : Installer → Page → Option Bool
unfolding app_configs_with_custom_packages
check_custom_packages c p = elim (app_configs_with_custom_packages c p) [
  | none ↦ none
  | some acs ↦ some (is_filled acs)
]

unfoldable pub show_agent_installer_configuration : Installer → Page → Outcome
unfolding app_configs_with_custom_packages
show_agent_installer_configuration c p = (
  p,
  (elim (app_configs_with_custom_packages c p) [
    | none ↦ type_error
    | some acs ↦ open_details acs c
  ])
      ∷ [],
)

-- What the template passes for the row at a place of a table.
abbrev pub row_at : {A : Type 0} → Option (List A) → ℕ → Option A
row_at none i = none
row_at (some rows) i = get_elem? rows i

abbrev pub choose_installer : Option Installer → Page → Page
choose_installer none p = p
choose_installer (some c) p = record p { installer_selection = some c }

unfoldable pub update_selected_agent_installer_config : ℕ → Page → Outcome
update_selected_agent_installer_config i p = (choose_installer (row_at p.installers i) p, [])

abbrev pub choose_list : Option ℕ → Page → Page
choose_list none p = p
choose_list (some r) p = record p { ip_target_selection = some (p.rows r).config }

unfoldable pub update_selected_ip_target : ℕ → Page → Outcome
update_selected_ip_target i p = (choose_list (row_at p.lists_table i) p, [])

unfoldable pub toggle_host_list_expansion : ℕ → Page → Outcome
toggle_host_list_expansion r p = (
  record p { rows = update p.rows r (record (p.rows r) { expanded = not (p.rows r).expanded }) },
  [],
)

unfoldable pub is_host_list_expanded : ℕ → Page → Bool
is_host_list_expanded r p = (p.rows r).expanded

unfoldable pub download_agent_installer : Installer → Page → Outcome
download_agent_installer c p = (
  record p { is_downloading = true },
  display (
        codes "Initiated executable download for "
        ++ c.config_name
        ++ codes ". Please wait until it is completed.")
      ∷ generate c
      ∷ [],
)

abbrev pub action_text : Action → String
action_text install = "install"
action_text reinstall = "reinstall"
action_text uninstall = "uninstall"
action_text uninstalls = "uninstalls"

unfoldable pub dialog_message : Action → Option (Option Text) → Text
dialog_message action host_name =
    let middle_message : Text = elim host_name [
      | none ↦ codes " configuration on all Windows hosts within your target configuration. "
      | some none ↦ codes " configuration on all Windows hosts within your target configuration. "
      | some (some name) ↦ codes " on " ++ name
    ] in
    codes "Executing this form will attempt to "
    ++ (codes (action_text action)
        ++ (codes " the selected executable\n           "
            ++ (middle_message ++ codes ". Are you sure you want to do this?")))

unfoldable pub agents_install : Installer → ℕ → Page → Outcome
unfolding dialog_message
agents_install c l p = (
  p,
  ask_credentials (codes "Install Windows hosts") (dialog_message install none)
        (record { action = install; installer = c; target_list = l; target = none })
      ∷ [],
)

unfoldable pub agents_uninstall : Installer → ℕ → Page → Outcome
unfolding dialog_message
agents_uninstall c l p = (
  p,
  ask_credentials (codes "Uninstall Windows hosts") (dialog_message uninstalls none)
        (record { action = uninstalls; installer = c; target_list = l; target = none })
      ∷ [],
)
