-- ===== src/Agents/Tests.antt =====
-- A list of three hosts, and the theorems at it.
use hellogit.Common.{
  Text, codes, ℕ, ◌+◌, leb, ◌&&◌, if◌then◌else◌, true, false, ◌≡◌, ◌≢◌, refl, none, some, List, [],
  ◌∷◌, ◌++◌, map, keep, take, All, get_elem?, arith, allocate, fresh,
}
use hellogit.Rest.{ok}
use hellogit.Agents.Types.{Host, About, ListData, Installer, Page, uninstalls, send}
use hellogit.Agents.Actions.{constructed}
use hellogit.Agents.Hosts.{distinct, filter_first, is_host_index_zero, update_ip_targets}
use hellogit.Agents.Tables.{set_lists, new_rows, new_row, new_targets}
use hellogit.Agents.Dialogs.{agent_uninstall, credentials_closed}
use hellogit.Agents.Replies.{replied_agent_add_host, replied_agent_remove_host}
use hellogit.Agents.Distinct.{is_named, replied_agent_add_host_lem}
use hellogit.Agents.Removal.{later_page-stays}
use hellogit.Agents.Single.{batch, agent_uninstall-dismissed}
use hellogit.Agents.Refresh.{refreshed_host, update_ip_targets_lem}
use hellogit.Agents.Events.{
  Event, run, configs_answer, lists_answer, installer_selected, list_selected, install_clicked,
  refresh_message, host_uninstalled,
}
use hellogit.Agents.Selected.{AreSelected}
use hellogit.Agents.Runs.{run-AreSelected}

-- `toLowerCase` on ASCII
abbrev lower : Text → Text
lower t = map (λ c. if leb b'A' c && leb c b'Z' then c + 32 else c) t

abbrev host : Text → Text → Host
host name state = record { hostname = some name; state = state; last_state_change = [] }

abbrev about : About
about = record {
  list_id = some (codes "id");
  name = codes "office";
  protocol = codes "smb";
  ntlm_port = [];
  ntlm_domain_name = [];
  smb_port = codes "445";
  smb_domain_name = [];
}

abbrev office : ListData
office = record {
  about = about;
  hosts = some (host (codes "pc1") [] ∷ host (codes "pc2") [] ∷ host (codes "pc3") [] ∷ []);
}

abbrev installer : Installer
installer = record {
  installer_id = codes "i";
  config_name = codes "winlogbeat";
  custom_packages = none;
}

-- The hosts are at 0, 1 and 2, the list and its row at 3.
abbrev page : Page
page = set_lists (office ∷ []) constructed

row_shown : (page.lists_table ≡ some (3 ∷ [])) × ((page.rows 3).host_list ≡ 0 ∷ 1 ∷ 2 ∷ [])
unfolding set_lists new_rows new_row new_targets allocate fresh constructed
row_shown = (refl, refl)

abbrev added : List Host
added = host (codes "PC2") (codes "new") ∷ host (codes "pc4") [] ∷ []

-- The second host is there by its name in small letters.
added_shown :
    ((replied_agent_add_host lower (ok added) 3 3 page).0.rows 3).host_list ≡ 0 ∷ 1 ∷ 2 ∷ 5 ∷ []
unfolding replied_agent_add_host distinct filter_first is_host_index_zero set_lists new_rows new_row
    new_targets allocate fresh constructed
added_shown = refl

replied_agent_add_host_lem_example :
    let q = (replied_agent_add_host lower (ok added) 3 3 page).0 in
    let all =
      map (allocate page.hosts page.next added) ((0 ∷ 1 ∷ 2 ∷ []) ++ fresh page.next added) in
    ((q.lists 3).targets ≡ some (q.rows 3).host_list)
    × (keep (is_named lower (codes "pc2")) (map q.hosts (q.rows 3).host_list)
        ≡ take 1 (keep (is_named lower (codes "pc2")) all))
unfolding set_lists new_rows new_row new_targets allocate fresh constructed
replied_agent_add_host_lem_example =
    replied_agent_add_host_lem lower (codes "pc2") added 3 3 (0 ∷ 1 ∷ 2 ∷ []) page refl

-- Two rows a page: the host at the first row of the second page is removed, and stays.
later_page-stays_example :
    get_elem? ((replied_agent_remove_host (ok "removed") 3 3 0 page).0.rows 3).host_list 1 ≡ some 2
unfolding set_lists new_rows new_row new_targets allocate fresh constructed
later_page-stays_example =
    later_page-stays 2 0 0 1 2 "removed" 3 3 page (omega arith) (omega arith) refl

agent_uninstall-dismissed_example :
    let q =
      (credentials_closed none (batch installer 3) (agent_uninstall installer 3 1 page).0).0 in
    (credentials_closed (some (true, (codes "admin", codes "secret"))) (batch installer 3) q).1
    ≡ send (record {
      sent_action = uninstalls;
      sent_installer = installer;
      sent_list = record { about = about; hosts = some (host (codes "pc2") [] ∷ []) };
      sent_target = none;
      user_name = codes "admin";
      password = codes "secret";
    })
      ∷ []
unfolding set_lists new_rows new_row new_targets allocate fresh constructed
agent_uninstall-dismissed_example =
    agent_uninstall-dismissed installer installer 3 1 (0 ∷ 1 ∷ 2 ∷ []) (batch installer 3)
      (codes "admin") (codes "secret") page refl

update_ip_targets_lem_example :
    let us = host (codes "pc2") (codes "Installed") ∷ [] in
    let (o', finished) = update_ip_targets (some (0 ∷ 1 ∷ 2 ∷ [])) (some us) page.hosts in
    (finished ≡ true)
    × (map o' (0 ∷ 1 ∷ 2 ∷ []) ≡ map (λ r. refreshed_host us (page.hosts r)) (0 ∷ 1 ∷ 2 ∷ []))
    × ((r : ℕ) → All (λ s. r ≢ s) (0 ∷ 1 ∷ 2 ∷ []) → o' r ≡ page.hosts r)
update_ip_targets_lem_example =
    update_ip_targets_lem (0 ∷ 1 ∷ 2 ∷ []) (host (codes "pc2") (codes "Installed") ∷ []) page.hosts
      (omega arith)

abbrev events : List Event
events =
    configs_answer (ok (installer ∷ []))
    ∷ lists_answer false (ok (office ∷ []))
    ∷ installer_selected 0
    ∷ list_selected 0
    ∷ install_clicked
    ∷ host_uninstalled installer 3 0
    ∷ refresh_message
    ∷ lists_answer true (ok (office ∷ []))
    ∷ []

run-AreSelected_example : AreSelected (run lower events constructed)
unfolding constructed
run-AreSelected_example = run-AreSelected lower events constructed (tt, tt)
