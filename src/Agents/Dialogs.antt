-- ===== src/Agents/Dialogs.antt =====
-- The actions of agent-builder-chooser.component.ts on one host, the credentials that each action
-- asks for, and the other dialogs that closed.
use mathlib.Core.Option
use hellogit.Common.{
  Text, codes, text_eq, ℕ, Bool, true, false, keep, Option, none, some, List, [], ◌∷◌, ◌++◌, map,
  if◌then◌else◌, update,
}
use hellogit.Agents.Types.{
  About, ListData, Installer, Page, Action, reinstall, uninstall, Request, Effect, Outcome, shown,
  same, save_config, delete_config, save_ip_target_list, delete_ip_target_list, add_host,
  remove_host, send, ask_credentials, confirm, open_installer, open_target, open_add_hosts,
  type_error,
}
use hellogit.Agents.Actions.{dialog_message}

-- `targets` of the list becomes the host alone, before the dialog opens.
abbrev pub filter_targets : Option (List ℕ) → ℕ → ℕ → Page → Option Page
filter_targets none l h p = none
filter_targets (some ts) l h p = some (record p {
  lists = update p.lists l (record (p.lists l) {
    targets = some (keep (λ r. same (p.hosts r).hostname (p.hosts h).hostname) ts);
  });
})

abbrev pub ask_after : Option Page → Effect → Page → Outcome
ask_after none dialog p = (p, type_error ∷ [])
ask_after (some q) dialog p = (q, dialog ∷ [])

abbrev pub on_host : Action → Text → Installer → ℕ → ℕ → Page → Outcome
on_host action title c l h p =
    ask_after (filter_targets (p.lists l).targets l h p)
      (ask_credentials (title ++ shown (p.hosts h).hostname)
        (dialog_message action (some (p.hosts h).hostname))
        (record { action = action; installer = c; target_list = l; target = some h }))
      p

unfoldable pub agent_uninstall : Installer → ℕ → ℕ → Page → Outcome
unfolding dialog_message
agent_uninstall c l h p = on_host uninstall (codes "Uninstall Windows host ") c l h p

unfoldable pub agent_reinstall : Installer → ℕ → ℕ → Page → Outcome
unfolding dialog_message
agent_reinstall c l h p = on_host reinstall (codes "Reinstall Windows host ") c l h p

-- What a form or a dialog closes with: undefined, or a form that is valid or not, with its values.
abbrev pub Form : Type 0 → Type 0
Form A = Option (Bool × A)

-- A list as a request has it, with its hosts as they are then.
unfoldable pub contents : ℕ → Page → ListData
contents l p = record {
  about = (p.lists l).about;
  hosts = Option.map (λ rs. map p.hosts rs) (p.lists l).targets;
}

-- `get_credentials_` after its dialog, with `perform_agent_action_`: each action has a request.
unfoldable pub credentials_closed : Form (Text × Text) → Request → Page → Outcome
unfolding contents
credentials_closed none req p = (p, [])
credentials_closed (some (false, values)) req p = (p, [])
credentials_closed (some (true, (user_name, password))) req p = (
  p,
  send (record {
    sent_action = req.action;
    sent_installer = req.installer;
    sent_list = contents req.target_list p;
    sent_target = Option.map p.hosts req.target;
    user_name = user_name;
    password = password;
  })
      ∷ [],
)

unfoldable pub delete_agent_installer_configuration_confirm_dialog : Installer → Page → Outcome
delete_agent_installer_configuration_confirm_dialog c p = (
  p,
  confirm (codes "Remove configuration " ++ c.config_name ++ codes "?")
        (codes "Are you sure you want to delete " ++ c.config_name ++ codes "?")
      ∷ [],
)

unfoldable pub delete_installer_closed : Bool → Installer → Page → Outcome
delete_installer_closed confirmed c p =
    (p, if confirmed then delete_config c.installer_id ∷ [] else [])

unfoldable pub delete_ip_target_list_confirm_dialog : ℕ → Page → Outcome
delete_ip_target_list_confirm_dialog l p = (
  p,
  confirm (codes "Remove configuration " ++ (p.lists l).about.name ++ codes "?") (
        codes
          "Before deleting this target configuration, it is strongly advised to first do a \"Batch Uninstall\". Please make sure all agents have been uninstalled successfully. This action cannot be undone.")
      ∷ [],
)

unfoldable pub delete_list_closed : Bool → ℕ → Page → Outcome
delete_list_closed confirmed l p =
    (p, if confirmed then delete_ip_target_list (p.lists l).about.name ∷ [] else [])

-- The button is disabled as long as the configurations of applications have not come.
unfoldable pub new_agent_installer_configuration : Page → Outcome
new_agent_installer_configuration p =
    (p, (elim p.app_configs [ none ↦ type_error | some acs ↦ open_installer acs ]) ∷ [])

unfoldable pub new_installer_closed : Option Installer → Page → Outcome
new_installer_closed none p = (p, [])
new_installer_closed (some c) p = (p, save_config c ∷ [])

unfoldable pub new_ip_target_list : Page → Outcome
new_ip_target_list p = (p, open_target ∷ [])

unfoldable pub new_list_closed : Option ListData → Page → Outcome
new_list_closed none p = (p, [])
new_list_closed (some list) p = (p, save_ip_target_list list ∷ [])

abbrev is_smb : About → Bool
is_smb a = text_eq a.protocol (codes "smb")

unfoldable pub get_ip_target_list_port : About → Text
get_ip_target_list_port a = if is_smb a then a.smb_port else a.ntlm_port

unfoldable pub get_ip_target_list_domain_name : About → Text
get_ip_target_list_domain_name a = if is_smb a then a.smb_domain_name else a.ntlm_domain_name

unfoldable pub add_hosts_to_ip_target_list : Page → Outcome
add_hosts_to_ip_target_list p = (p, open_add_hosts ∷ [])

-- The form's text of the names of hosts
unfoldable pub add_hosts_closed : Form Text → ℕ → Page → Outcome
add_hosts_closed none l p = (p, [])
add_hosts_closed (some (valid, hostnames)) l p =
    (p, if valid then add_host (p.lists l).about.list_id hostnames ∷ [] else [])

unfoldable pub remove_hosts_from_ip_target_list : ℕ → Page → Outcome
remove_hosts_from_ip_target_list h p =
    let name = shown (p.hosts h).hostname in
    (
      p,
      confirm (codes "Remove configuration " ++ name ++ codes "?") (
            codes "Before deleting this "
            ++ (name
                ++ codes
                    ", it is strongly advised to uninstall first. This action cannot be undone."))
          ∷ [],
    )

unfoldable pub remove_hosts_closed : Bool → ℕ → ℕ → Page → Outcome
remove_hosts_closed confirmed l h p =
    (p, if confirmed then remove_host (p.lists l).about.list_id (p.hosts h) ∷ [] else [])
