-- ===== src/Agents/Replies.antt =====
-- The answers to the requests of agent-builder-chooser.component.ts.
use hellogit.Common.{
  Text, codes, text_eq, String, ℕ, ◌+◌, Bool, true, false, Option, none, some, List, [], ◌∷◌, ◌++◌,
  if◌then◌else◌, length, update, remove_at, allocate, fresh,
}
use hellogit.Rest.{Reply, ok, error_message_class, http_error}
use hellogit.Agents.Types.{
  Host, ListData, Installer, AppConfig, Page, Outcome, save_file, display_text, success_snackbar,
  error_snackbar,
}
use hellogit.Agents.Hosts.{distinct}
use hellogit.Agents.Tables.{set_installers, new_targets, set_lists, refreshed}

-- What an answer does: of a request whose handler knows errors with a text, or does not.
abbrev told {ℓ} : {A : Type ℓ} → String → (A → Outcome) → Page → Reply A → Outcome
told message done p (ok a) = done a
told message done p (error_message_class m) = (p, display_text m ∷ [])
told message done p http_error = (p, error_snackbar message ∷ [])

abbrev untold {ℓ} : {A : Type ℓ} → String → (A → Outcome) → Page → Reply A → Outcome
untold message done p (ok a) = done a
untold message done p (error_message_class m) = (p, error_snackbar message ∷ [])
untold message done p http_error = (p, error_snackbar message ∷ [])

-- A refresh of a table that is there, or a new table.
unfoldable pub receive_lists : Bool → Option (List ℕ) → List ListData → Page → Outcome
unfolding refreshed set_lists
receive_lists true (some rs) response p = refreshed response rs p
receive_lists true none response p = (set_lists response p, [])
receive_lists false table response p = (set_lists response p, [])

unfoldable pub replied_get_ip_target_list : Bool → Reply (List ListData) → Page → Outcome
unfolding receive_lists
replied_get_ip_target_list refresh reply p =
    untold "retrieving ip target configurations"
      (λ response. receive_lists refresh p.lists_table response p) p reply

-- The statuses of the nodes of logstash, by their texts
unfoldable pub replied_get_chart_status : Reply (List Text) → Page → Outcome
replied_get_chart_status reply p =
    untold "retrieving logstash installation status"
      (λ response. elim response [
        | [] ↦ (
          p,
          display_text
                "Before using this page, it is recommended that you install Logstash on your Kubernetes cluster. Please go to the Catalog page and install it. Failing to install it will cause Winlogbeats and Endgame agent data capture to Elasticsearch to fail."
              ∷ [],
        )
        | status ∷ statuses ↦ (
          p,
          if text_eq status (codes "DEPLOYED")
              then []
              else display_text
                  "Logstash is not in a deployed state. Please check the system health page or try to reinstall Logstash on the catalog page."
                ∷ [],
        )
      ])
      p reply

unfoldable pub replied_agent_generate : Reply Text → Page → Outcome
replied_agent_generate reply p =
    let q = record p { is_downloading = false } in
    untold "downloading or generating agent installer config"
      (λ blob. (
        q,
        save_file
            ∷ success_snackbar
                "downloaded agent installer configuration. Check your Downloads directory for the file."
            ∷ [],
      ))
      q reply

unfoldable pub replied_agent_save_config : Reply (List Installer) → Page → Outcome
unfolding set_installers
replied_agent_save_config reply p =
    told "saving agent installer configuration"
      (λ response.
        (set_installers response p, success_snackbar "saved agent installer configuration" ∷ []))
      p reply

unfoldable pub replied_agent_delete_config : Reply (List Installer) → Page → Outcome
unfolding set_installers
replied_agent_delete_config reply p =
    untold "deleting agent installer configuration"
      (λ response.
        (set_installers response p, success_snackbar "deleted agent installer configuration" ∷ []))
      p reply

unfoldable pub replied_agent_get_configs : Reply (List Installer) → Page → Outcome
unfolding set_installers
replied_agent_get_configs reply p =
    untold "retrieving agent installer configurations" (λ response. (set_installers response p, []))
      p reply

unfoldable pub replied_agent_save_ip_target_list : Reply (List ListData) → Page → Outcome
unfolding set_lists
replied_agent_save_ip_target_list reply p =
    untold "saving ip target configuration"
      (λ response. (set_lists response p, success_snackbar "saved ip target configuration" ∷ [])) p
      reply

unfoldable pub replied_delete_ip_target_list : Reply (List ListData) → Page → Outcome
unfolding set_lists
replied_delete_ip_target_list reply p =
    untold "deleting ip target configuration"
      (λ response. (set_lists response p, success_snackbar "deleted ip target configuration" ∷ []))
      p reply

abbrev pub show_hosts : ℕ → ℕ → List ℕ → Page → Page
show_hosts l r hs p = record p {
  lists = update p.lists l (record (p.lists l) { targets = some hs });
  rows = update p.rows r (record (p.rows r) { host_list = hs });
}

-- The hosts that a list had, if it had any, and those of the answer.
abbrev pub added_hosts : (Text → Text) → (ℕ → Host) → Option (List ℕ) → List ℕ → List ℕ
added_hosts lower o none response_targets = response_targets
added_hosts lower o (some targets) response_targets = distinct lower o (targets ++ response_targets)

-- The list of the answer, which has its hosts, becomes objects.
unfoldable pub replied_agent_add_host : (Text → Text) → Reply (List Host) → ℕ → ℕ → Page → Outcome
unfolding new_targets distinct
replied_agent_add_host lower reply l r p =
    told "adding host to ip target list"
      (λ response.
        let q = record p {
          hosts = allocate p.hosts p.next response;
          next = p.next + length response;
        } in
        let response_targets = fresh p.next response in
        (
          show_hosts l r (added_hosts lower q.hosts (p.lists l).targets response_targets) q,
          success_snackbar "added host to ip target configuration" ∷ [],
        ))
      p reply

-- The index is the one that the host's table gave its row.
unfoldable pub replied_agent_remove_host : Reply String → ℕ → ℕ → ℕ → Page → Outcome
replied_agent_remove_host reply l r host_index p =
    told "removing host from ip target list"
      (λ message.
        (show_hosts l r (remove_at host_index (p.rows r).host_list) p, display_text message ∷ []))
      p reply

unfoldable pub replied_agents_install : Reply String → Page → Outcome
replied_agents_install reply p =
    told "initiating install task for an unknown reason" (λ message. (p, display_text message ∷ []))
      p reply

unfoldable pub replied_agents_uninstall : Reply String → Page → Outcome
replied_agents_uninstall reply p =
    told "executing uninstall action as this Agent is already uninstalled on target host"
      (λ message. (p, display_text message ∷ [])) p reply

unfoldable pub replied_agent_uninstall : Reply String → Page → Outcome
replied_agent_uninstall reply p =
    told "executing uninstall action as this Agent is already uninstalled on target host"
      (λ message. (p, display_text message ∷ [])) p reply

unfoldable pub replied_agent_reinstall : Reply String → Page → Outcome
replied_agent_reinstall reply p =
    untold "initiating reinstall task for an unknown reason"
      (λ message. (p, display_text message ∷ [])) p reply

unfoldable pub replied_get_app_configs : Reply (List AppConfig) → Page → Outcome
replied_get_app_configs reply p =
    untold "retrieving app configs" (λ response. (record p { app_configs = some response }, [])) p
      reply
