-- ===== src/Nodes/Runs.antt =====
-- What the tables of nodes show through a run.
use hellogit.Common.{
  Text, codes, text_eq, ℕ, Bool, Bool-cases, inl, inr, true, not, ◌&&◌, ◌≡◌, refl, sym, ap, ◌∙◌,
  fun_ext, none, some, List, [], ◌∷◌, map, update, keep, any, arith,
}
use hellogit.Rest.{ok, error_message_class, http_error}
use mathlib.Core.List.{map-map}
use hellogit.Nodes.Tables.{is_listed, is_control_plane, update_nodes_data_lem}
use hellogit.Nodes.Types.{Job, Node, Page, is_iso}
use hellogit.Nodes.Handlers
use hellogit.Nodes.Handlers.{jobs_loop, marked, update_nodes_data}
use hellogit.Nodes.Events.{
  Event, handle, run, facts_clicked, info_clicked, vpn_clicked, delete_clicked, add_clicked,
  iso_clicked, deploy_clicked, refresh_clicked, setup_clicked, stdout_clicked, redeploy_closed,
  refresh_closed, delete_closed, nodes_message, status_message, nodes_answer, status_answer,
  settings_answer, deploy_answer, refresh_answer, setup_answer, facts_answer, vpn_answer,
  delete_answer, apps_answer,
}

-- The tables show nodes of these names, in their order.
abbrev pub Shows : List Node → Page → Type 0
Shows ns p =
    (map (λ r. (p.objects r).hostname) p.nodes ≡ map (λ (n : Node). n.hostname) (keep is_listed ns))
    × (map (λ r. (p.objects r).hostname) p.setup_nodes
        ≡ map (λ (n : Node). n.hostname) (keep is_control_plane ns))
    × (p.iso_sensor_detected ≡ any is_iso ns)

-- The nodes that came last.
unfoldable pub arrived : Event → List Node → List Node
arrived (nodes_message ns) before = ns
arrived (nodes_answer (ok ns)) before = ns
arrived _ before = before

unfoldable pub last_arrived : List Event → List Node → List Node
unfolding arrived
last_arrived [] before = before
last_arrived (e ∷ es) before = last_arrived es (arrived e before)

-- A node's names are not changed by its marks.
module _ {ℓ} {A : Type ℓ} (f : Text → Text → Text → A) where
  abbrev names : Node → A
  names n = f n.hostname n.node_type n.deployment_type

  jobs_loop-names : (js : List Job) (n : Node) → names (jobs_loop n js) ≡ names n
  unfolding jobs_loop
  jobs_loop-names [] n = refl
  jobs_loop-names (j ∷ js) n = jobs_loop-names js _

  marked-names : (n : Node) → names (marked n) ≡ names n
  unfolding marked
  marked-names n =
      elim n.jobs as (λ js. names (elim js [ none ↦ n | some js ↦ jobs_loop n js ]) ≡ names n) [
        | none ↦ refl
        | some js ↦ jobs_loop-names js n
      ]

module _ (f : Text → Text → Text → Bool) where
  map-marked :
      (ns : List Node)
      → map (λ (n : Node). n.hostname) (keep (names f) (map marked ns))
        ≡ map (λ (n : Node). n.hostname) (keep (names f) ns)
  map-marked [] = refl
  map-marked (n ∷ ns) = elim (Bool-cases (names f n)) [
    | inl e ↦
        rw (marked-names f n, e, marked-names (λ h t d. h) n) (ap (◌∷◌ n.hostname) (map-marked ns))
    | inr e ↦ rw (marked-names f n, e) (map-marked ns)
  ]

  any-marked : (ns : List Node) → any (names f) (map marked ns) ≡ any (names f) ns
  any-marked [] = refl
  any-marked (n ∷ ns) = rw (marked-names f n, any-marked ns) refl

arrived-Shows : (ns : List Node) (p : Page) → Shows ns (update_nodes_data ns p)
arrived-Shows ns p =
    let q = update_nodes_data ns p in
    let (listed, setup, iso) = update_nodes_data_lem ns p in
    (
      sym (map-map (λ (n : Node). n.hostname) q.objects q.nodes)
          ∙ ap (map (λ (n : Node). n.hostname)) listed
          ∙ map-marked
              (λ h t d. not (text_eq t (codes "MIP")) && not (text_eq t (codes "Control-Plane")))
              ns,
      sym (map-map (λ (n : Node). n.hostname) q.objects q.setup_nodes)
          ∙ ap (map (λ (n : Node). n.hostname)) setup
          ∙ map-marked (λ h t d. text_eq t (codes "Control-Plane")) ns,
      iso ∙ any-marked (λ h t d. text_eq d (codes "Iso")) ns,
    )

-- To mark a node as being removed changes no name.
hostnames_keep :
    (o : ℕ → Node) (r : ℕ)
    → ◌≡◌ {A = ℕ → Text}
        (λ s. (update o r (record (o r) { is_removing = some true }) s).hostname)
        (λ s. (o s).hostname)
hostnames_keep o r = fun_ext (λ s. ground arith)

removing-Shows :
    (ns : List Node) (p : Page) (r : ℕ)
    → Shows ns p
    → Shows ns (record p {
      objects = update p.objects r (record (p.objects r) { is_removing = some true });
    })
removing-Shows ns p r (listed, setup, iso) =
    let names_keep = hostnames_keep p.objects r in
    (
      ap (λ h. map h p.nodes) names_keep ∙ listed,
      ap (λ h. map h p.setup_nodes) names_keep ∙ setup,
      iso,
    )

handle-Shows :
    (e : Event) (ns : List Node) (p : Page) → Shows ns p → Shows (arrived e ns) (handle e p).0
unfolding handle arrived Handlers.refresh_device_facts Handlers.open_node_info_dialog_window
    Handlers.download_open_vpn_certs Handlers.delete_node Handlers.open_add_node_dialog_window
    Handlers.download_iso Handlers.deploy_kit Handlers.refresh_kit Handlers.setup_control_plane
    Handlers.open_job_server_std_out_console Handlers.redeploy_kit_closed
    Handlers.refresh_kit_closed Handlers.delete_closed Handlers.on_node_state_change
    Handlers.on_kit_status_change Handlers.replied_get_nodes Handlers.replied_get_kit_status
    Handlers.replied_get_kit_settings Handlers.replied_deploy_kit Handlers.replied_refresh_kit
    Handlers.replied_setup_control_plane Handlers.replied_update_device_facts
    Handlers.replied_get_open_vpn_certs Handlers.replied_delete_node
    Handlers.replied_get_catalog_apps
handle-Shows (nodes_message response) ns p h = arrived-Shows response p
handle-Shows (nodes_answer (ok response)) ns p h = arrived-Shows response p
handle-Shows (delete_answer (ok job) r) ns p h = removing-Shows ns p r h
handle-Shows (nodes_answer (error_message_class m)) ns p h = h
handle-Shows (nodes_answer http_error) ns p h = h
handle-Shows (delete_answer (error_message_class m) r) ns p h = h
handle-Shows (delete_answer http_error r) ns p h = h
handle-Shows (facts_clicked r) ns p h = h
handle-Shows (info_clicked r) ns p h = h
handle-Shows (vpn_clicked r) ns p h = h
handle-Shows (delete_clicked r) ns p h = h
handle-Shows add_clicked ns p h = h
handle-Shows iso_clicked ns p h = h
handle-Shows deploy_clicked ns p h = h
handle-Shows refresh_clicked ns p h = h
handle-Shows setup_clicked ns p h = h
handle-Shows (stdout_clicked j) ns p h = h
handle-Shows (redeploy_closed b) ns p h = h
handle-Shows (refresh_closed b) ns p h = h
handle-Shows (delete_closed b r) ns p h = h
handle-Shows (status_message s) ns p h = h
handle-Shows (status_answer (ok x)) ns p h = h
handle-Shows (status_answer (error_message_class m)) ns p h = h
handle-Shows (status_answer http_error) ns p h = h
handle-Shows (settings_answer (ok x)) ns p h = h
handle-Shows (settings_answer (error_message_class m)) ns p h = h
handle-Shows (settings_answer http_error) ns p h = h
handle-Shows (deploy_answer (ok x)) ns p h = h
handle-Shows (deploy_answer (error_message_class m)) ns p h = h
handle-Shows (deploy_answer http_error) ns p h = h
handle-Shows (refresh_answer (ok x)) ns p h = h
handle-Shows (refresh_answer (error_message_class m)) ns p h = h
handle-Shows (refresh_answer http_error) ns p h = h
handle-Shows (setup_answer (ok x)) ns p h = h
handle-Shows (setup_answer (error_message_class m)) ns p h = h
handle-Shows (setup_answer http_error) ns p h = h
handle-Shows (facts_answer (ok x) r) ns p h = h
handle-Shows (facts_answer (error_message_class m) r) ns p h = h
handle-Shows (facts_answer http_error r) ns p h = h
handle-Shows (vpn_answer (ok x) r) ns p h = h
handle-Shows (vpn_answer (error_message_class m) r) ns p h = h
handle-Shows (vpn_answer http_error r) ns p h = h
handle-Shows (apps_answer (ok x) r) ns p h = h
handle-Shows (apps_answer (error_message_class m) r) ns p h = h
handle-Shows (apps_answer http_error r) ns p h = h

-- Through any run of the page, the tables show the names of the nodes that came last, each in
-- their order: the first of those that are neither MIPs nor of the control plane, the second of
-- those of the control plane. The download of the ISO is shown exactly if one of all is an ISO's.
pub run-Shows :
    (es : List Event) (ns : List Node) (p : Page)
    → Shows ns p
    → Shows (last_arrived es ns) (run es p)
unfolding run last_arrived
run-Shows [] ns p h = h
run-Shows (e ∷ es) ns p h = run-Shows es (arrived e ns) (handle e p).0 (handle-Shows e ns p h)
