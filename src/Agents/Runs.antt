-- ===== src/Agents/Runs.antt =====
-- What is selected through a run.
use hellogit.Common.{Text, true, false, refl, none, some, List, [], ◌∷◌}
use hellogit.Rest.{ok, error_message_class, http_error}
use hellogit.Agents.Types.{Page}
use hellogit.Agents.Actions
use hellogit.Agents.Dialogs
use hellogit.Agents.Replies
use hellogit.Agents.Tables.{set_installers}
use hellogit.Agents.Selected.{
  AreSelected, set_lists_lem, receive_lists_lem, single_lem, row_at_lem, choose_installer_lem,
  choose_list_lem, row_lem, selected_lem, both_lem,
}
use hellogit.Agents.Events.{
  Event, handle, run, refresh_message, new_installer_clicked, new_list_clicked, add_hosts_clicked,
  download_clicked, install_clicked, uninstall_clicked, installer_selected, list_selected,
  row_clicked, details_clicked, delete_installer_clicked, host_uninstalled, host_reinstalled,
  delete_list_clicked, remove_clicked, credentials_given, delete_installer_closed,
  delete_list_closed, new_installer_closed, new_list_closed, add_hosts_closed, remove_closed,
  status_answer, generate_answer, save_answer, delete_answer, configs_answer, lists_answer,
  save_list_answer, delete_list_answer, add_answer, remove_answer, install_answer, batch_answer,
  uninstall_answer, reinstall_answer, apps_answer,
}

module _ (lower : Text → Text) where
  handle-AreSelected : (e : Event) (p : Page) → AreSelected p → AreSelected (handle lower e p).0
  unfolding handle set_installers Actions.on_refresh Actions.download_agent_installer
      Actions.agents_install Actions.agents_uninstall Actions.update_selected_agent_installer_config
      Actions.update_selected_ip_target Actions.toggle_host_list_expansion
      Actions.show_agent_installer_configuration Dialogs.new_agent_installer_configuration
      Dialogs.new_ip_target_list Dialogs.add_hosts_to_ip_target_list
      Dialogs.delete_agent_installer_configuration_confirm_dialog Dialogs.agent_uninstall
      Dialogs.agent_reinstall Dialogs.delete_ip_target_list_confirm_dialog
      Dialogs.remove_hosts_from_ip_target_list Dialogs.credentials_closed
      Dialogs.delete_installer_closed Dialogs.delete_list_closed Dialogs.new_installer_closed
      Dialogs.new_list_closed Dialogs.add_hosts_closed Dialogs.remove_hosts_closed
      Replies.replied_get_chart_status Replies.replied_agent_generate
      Replies.replied_agent_save_config Replies.replied_agent_delete_config
      Replies.replied_agent_get_configs Replies.replied_get_ip_target_list
      Replies.replied_agent_save_ip_target_list Replies.replied_delete_ip_target_list
      Replies.replied_agent_add_host Replies.replied_agent_remove_host
      Replies.replied_agents_install Replies.replied_agents_uninstall
      Replies.replied_agent_uninstall Replies.replied_agent_reinstall
      Replies.replied_get_app_configs
  handle-AreSelected refresh_message p h = h
  handle-AreSelected new_installer_clicked p h = h
  handle-AreSelected new_list_clicked p h = h
  handle-AreSelected add_hosts_clicked p h = h
  handle-AreSelected download_clicked p h =
      selected_lem Actions.download_agent_installer p.installer_selection p (λ c. h) h
  handle-AreSelected install_clicked p h =
      both_lem Actions.agents_install p.installer_selection p.ip_target_selection p (λ c l. h) h
  handle-AreSelected uninstall_clicked p h =
      both_lem Actions.agents_uninstall p.installer_selection p.ip_target_selection p (λ c l. h) h
  handle-AreSelected (installer_selected i) p h =
      choose_installer_lem (Actions.row_at p.installers i) p (row_at_lem p.installers i) h
  handle-AreSelected (list_selected i) p h =
      choose_list_lem (Actions.row_at p.lists_table i) p (row_at_lem p.lists_table i) h
  handle-AreSelected (row_clicked r) p h = row_lem r _ p refl h
  handle-AreSelected (details_clicked c) p h = h
  handle-AreSelected (delete_installer_clicked c) p h = h
  handle-AreSelected (delete_list_clicked l) p h = h
  handle-AreSelected (remove_clicked h') p h = h
  handle-AreSelected (credentials_given none req) p h = h
  handle-AreSelected (credentials_given (some (false, values)) req) p h = h
  handle-AreSelected (credentials_given (some (true, values)) req) p h = h
  handle-AreSelected (delete_installer_closed b c) p h = h
  handle-AreSelected (delete_list_closed b l) p h = h
  handle-AreSelected (new_installer_closed none) p h = h
  handle-AreSelected (new_installer_closed (some c)) p h = h
  handle-AreSelected (new_list_closed none) p h = h
  handle-AreSelected (new_list_closed (some list)) p h = h
  handle-AreSelected (add_hosts_closed none l) p h = h
  handle-AreSelected (add_hosts_closed (some form) l) p h = h
  handle-AreSelected (remove_closed b l h') p h = h
  handle-AreSelected (host_uninstalled c l h') p h = single_lem (p.lists l).targets l h' _ p h
  handle-AreSelected (host_reinstalled c l h') p h = single_lem (p.lists l).targets l h' _ p h
  handle-AreSelected (status_answer (ok [])) p h = h
  handle-AreSelected (status_answer (ok (x ∷ xs))) p h = h
  handle-AreSelected (status_answer (error_message_class m)) p h = h
  handle-AreSelected (status_answer http_error) p h = h
  handle-AreSelected (generate_answer (ok x)) p h = h
  handle-AreSelected (generate_answer (error_message_class m)) p h = h
  handle-AreSelected (generate_answer http_error) p h = h
  handle-AreSelected (save_answer (ok x)) p h = (tt, h.1)
  handle-AreSelected (save_answer (error_message_class m)) p h = h
  handle-AreSelected (save_answer http_error) p h = h
  handle-AreSelected (delete_answer (ok x)) p h = (tt, h.1)
  handle-AreSelected (delete_answer (error_message_class m)) p h = h
  handle-AreSelected (delete_answer http_error) p h = h
  handle-AreSelected (configs_answer (ok x)) p h = (tt, h.1)
  handle-AreSelected (configs_answer (error_message_class m)) p h = h
  handle-AreSelected (configs_answer http_error) p h = h
  handle-AreSelected (save_list_answer (ok x)) p h = set_lists_lem x p h
  handle-AreSelected (save_list_answer (error_message_class m)) p h = h
  handle-AreSelected (save_list_answer http_error) p h = h
  handle-AreSelected (delete_list_answer (ok x)) p h = set_lists_lem x p h
  handle-AreSelected (delete_list_answer (error_message_class m)) p h = h
  handle-AreSelected (delete_list_answer http_error) p h = h
  handle-AreSelected (install_answer (ok x)) p h = h
  handle-AreSelected (install_answer (error_message_class m)) p h = h
  handle-AreSelected (install_answer http_error) p h = h
  handle-AreSelected (batch_answer (ok x)) p h = h
  handle-AreSelected (batch_answer (error_message_class m)) p h = h
  handle-AreSelected (batch_answer http_error) p h = h
  handle-AreSelected (uninstall_answer (ok x)) p h = h
  handle-AreSelected (uninstall_answer (error_message_class m)) p h = h
  handle-AreSelected (uninstall_answer http_error) p h = h
  handle-AreSelected (reinstall_answer (ok x)) p h = h
  handle-AreSelected (reinstall_answer (error_message_class m)) p h = h
  handle-AreSelected (reinstall_answer http_error) p h = h
  handle-AreSelected (apps_answer (ok x)) p h = h
  handle-AreSelected (apps_answer (error_message_class m)) p h = h
  handle-AreSelected (apps_answer http_error) p h = h
  handle-AreSelected (lists_answer refresh (ok x)) p h =
      receive_lists_lem refresh p.lists_table x p h
  handle-AreSelected (lists_answer refresh (error_message_class m)) p h = h
  handle-AreSelected (lists_answer refresh http_error) p h = h
  handle-AreSelected (add_answer (ok x) l r) p h = row_lem r _ p refl h
  handle-AreSelected (add_answer (error_message_class m) l r) p h = h
  handle-AreSelected (add_answer http_error l r) p h = h
  handle-AreSelected (remove_answer (ok x) l r i) p h = row_lem r _ p refl h
  handle-AreSelected (remove_answer (error_message_class m) l r i) p h = h
  handle-AreSelected (remove_answer http_error l r i) p h = h

  -- Through any run of the page, the configuration of an installer that is selected stands in the
  -- table of configurations, and the list that is selected is that of a row of the table of lists.
  pub run-AreSelected : (es : List Event) (p : Page) → AreSelected p → AreSelected (run lower es p)
  unfolding run
  run-AreSelected [] p h = h
  run-AreSelected (e ∷ es) p h = run-AreSelected es (handle lower e p).0 (handle-AreSelected e p h)
