-- ===== src/Agents/Events.antt =====
-- The runs of agent-builder-chooser.component.ts.
use hellogit.Common.{Text, String, ℕ, Bool, Option, none, some, List, [], ◌∷◌}
use hellogit.Rest.{Reply}
use hellogit.Agents.Types.{Host, ListData, Installer, AppConfig, Page, Request, Outcome}
use hellogit.Agents.Dialogs.{Form}
use hellogit.Agents.Actions
use hellogit.Agents.Dialogs
use hellogit.Agents.Replies

-- The clicks, the dialogs that closed and the answers. A row of a table is clicked by its place;
-- other numbers are the addresses of objects that a handler was given: of a list, of a row, of a host.
-- The buttons below the tables are for what is selected, and are disabled as long as nothing is.
pub data Event : Type 0 where
  refresh_message new_installer_clicked new_list_clicked add_hosts_clicked : Event
  download_clicked install_clicked uninstall_clicked : Event
  installer_selected list_selected row_clicked : ℕ → Event
  details_clicked delete_installer_clicked : Installer → Event
  host_uninstalled host_reinstalled : Installer → ℕ → ℕ → Event
  delete_list_clicked remove_clicked : ℕ → Event
  credentials_given : Dialogs.Form (Text × Text) → Request → Event
  delete_installer_closed : Bool → Installer → Event
  delete_list_closed : Bool → ℕ → Event
  new_installer_closed : Option Installer → Event
  new_list_closed : Option ListData → Event
  add_hosts_closed : Dialogs.Form Text → ℕ → Event
  remove_closed : Bool → ℕ → ℕ → Event
  status_answer : Reply (List Text) → Event
  generate_answer : Reply Text → Event
  save_answer delete_answer configs_answer : Reply (List Installer) → Event
  lists_answer : Bool → Reply (List ListData) → Event
  save_list_answer delete_list_answer : Reply (List ListData) → Event
  add_answer : Reply (List Host) → ℕ → ℕ → Event
  remove_answer : Reply String → ℕ → ℕ → ℕ → Event
  install_answer batch_answer uninstall_answer reinstall_answer : Reply String → Event
  apps_answer : Reply (List AppConfig) → Event

abbrev pub on_selected : (Installer → Page → Outcome) → Option Installer → Page → Outcome
on_selected f none p = (p, [])
on_selected f (some c) p = f c p

abbrev pub on_both : (Installer → ℕ → Page → Outcome) → Option Installer → Option ℕ → Page → Outcome
on_both f none _ p = (p, [])
on_both f (some c) none p = (p, [])
on_both f (some c) (some l) p = f c l p

unfoldable pub handle : (Text → Text) → Event → Page → Outcome
handle lower refresh_message p = Actions.on_refresh p
handle lower new_installer_clicked p = Dialogs.new_agent_installer_configuration p
handle lower new_list_clicked p = Dialogs.new_ip_target_list p
handle lower add_hosts_clicked p = Dialogs.add_hosts_to_ip_target_list p
handle lower download_clicked p =
    on_selected Actions.download_agent_installer p.installer_selection p
handle lower install_clicked p =
    on_both Actions.agents_install p.installer_selection p.ip_target_selection p
handle lower uninstall_clicked p =
    on_both Actions.agents_uninstall p.installer_selection p.ip_target_selection p
handle lower (installer_selected i) p = Actions.update_selected_agent_installer_config i p
handle lower (list_selected i) p = Actions.update_selected_ip_target i p
handle lower (row_clicked r) p = Actions.toggle_host_list_expansion r p
handle lower (details_clicked c) p = Actions.show_agent_installer_configuration c p
handle lower (delete_installer_clicked c) p =
    Dialogs.delete_agent_installer_configuration_confirm_dialog c p
handle lower (host_uninstalled c l h) p = Dialogs.agent_uninstall c l h p
handle lower (host_reinstalled c l h) p = Dialogs.agent_reinstall c l h p
handle lower (delete_list_clicked l) p = Dialogs.delete_ip_target_list_confirm_dialog l p
handle lower (remove_clicked h) p = Dialogs.remove_hosts_from_ip_target_list h p
handle lower (credentials_given form req) p = Dialogs.credentials_closed form req p
handle lower (delete_installer_closed confirmed c) p = Dialogs.delete_installer_closed confirmed c p
handle lower (delete_list_closed confirmed l) p = Dialogs.delete_list_closed confirmed l p
handle lower (new_installer_closed c) p = Dialogs.new_installer_closed c p
handle lower (new_list_closed list) p = Dialogs.new_list_closed list p
handle lower (add_hosts_closed form l) p = Dialogs.add_hosts_closed form l p
handle lower (remove_closed confirmed l h) p = Dialogs.remove_hosts_closed confirmed l h p
handle lower (status_answer reply) p = Replies.replied_get_chart_status reply p
handle lower (generate_answer reply) p = Replies.replied_agent_generate reply p
handle lower (save_answer reply) p = Replies.replied_agent_save_config reply p
handle lower (delete_answer reply) p = Replies.replied_agent_delete_config reply p
handle lower (configs_answer reply) p = Replies.replied_agent_get_configs reply p
handle lower (lists_answer refresh reply) p = Replies.replied_get_ip_target_list refresh reply p
handle lower (save_list_answer reply) p = Replies.replied_agent_save_ip_target_list reply p
handle lower (delete_list_answer reply) p = Replies.replied_delete_ip_target_list reply p
handle lower (add_answer reply l r) p = Replies.replied_agent_add_host lower reply l r p
handle lower (remove_answer reply l r i) p = Replies.replied_agent_remove_host reply l r i p
handle lower (install_answer reply) p = Replies.replied_agents_install reply p
handle lower (batch_answer reply) p = Replies.replied_agents_uninstall reply p
handle lower (uninstall_answer reply) p = Replies.replied_agent_uninstall reply p
handle lower (reinstall_answer reply) p = Replies.replied_agent_reinstall reply p
handle lower (apps_answer reply) p = Replies.replied_get_app_configs reply p

unfoldable pub run : (Text → Text) → List Event → Page → Page
unfolding handle
run lower [] p = p
run lower (e ∷ es) p = run lower es (handle lower e p).0
