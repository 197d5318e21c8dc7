-- ===== src/Nodes/Events.antt =====
-- The runs of node-mng.component.ts.
use hellogit.Common.{Text, ℕ, Bool, List, [], ◌∷◌}
use hellogit.Rest.{Reply}
use hellogit.Nodes.Types.{Node, KitStatus, Page, Outcome}
use hellogit.Nodes.Handlers

-- The clicks, the dialogs that closed, the answers, and the messages of the websocket. A number is
-- the address of the node that a handler was given.
pub data Event : Type 0 where
  facts_clicked info_clicked vpn_clicked delete_clicked : ℕ → Event
  add_clicked iso_clicked deploy_clicked refresh_clicked setup_clicked : Event
  stdout_clicked : Text → Event
  redeploy_closed refresh_closed : Bool → Event
  delete_closed : Bool → ℕ → Event
  nodes_message : List Node → Event
  status_message : KitStatus → Event
  nodes_answer : Reply (List Node) → Event
  status_answer : Reply KitStatus → Event
  settings_answer deploy_answer refresh_answer setup_answer : Reply Text → Event
  facts_answer vpn_answer delete_answer : Reply Text → ℕ → Event
  apps_answer : Reply (List Text) → ℕ → Event

unfoldable pub handle : Event → Page → Outcome
handle (facts_clicked r) p = Handlers.refresh_device_facts r p
handle (info_clicked r) p = Handlers.open_node_info_dialog_window r p
handle (vpn_clicked r) p = Handlers.download_open_vpn_certs r p
handle (delete_clicked r) p = Handlers.delete_node r p
handle add_clicked p = Handlers.open_add_node_dialog_window p
handle iso_clicked p = Handlers.download_iso p
handle deploy_clicked p = Handlers.deploy_kit p
handle refresh_clicked p = Handlers.refresh_kit p
handle setup_clicked p = Handlers.setup_control_plane p
handle (stdout_clicked job_id) p = Handlers.open_job_server_std_out_console job_id p
handle (redeploy_closed confirmed) p = Handlers.redeploy_kit_closed confirmed p
handle (refresh_closed confirmed) p = Handlers.refresh_kit_closed confirmed p
handle (delete_closed confirmed r) p = Handlers.delete_closed confirmed r p
handle (nodes_message response) p = Handlers.on_node_state_change response p
handle (status_message response) p = Handlers.on_kit_status_change response p
handle (nodes_answer reply) p = Handlers.replied_get_nodes reply p
handle (status_answer reply) p = Handlers.replied_get_kit_status reply p
handle (settings_answer reply) p = Handlers.replied_get_kit_settings reply p
handle (deploy_answer reply) p = Handlers.replied_deploy_kit reply p
handle (refresh_answer reply) p = Handlers.replied_refresh_kit reply p
handle (setup_answer reply) p = Handlers.replied_setup_control_plane reply p
handle (facts_answer reply r) p = Handlers.replied_update_device_facts reply r p
handle (vpn_answer reply r) p = Handlers.replied_get_open_vpn_certs reply r p
handle (delete_answer reply r) p = Handlers.replied_delete_node reply r p
handle (apps_answer reply r) p = Handlers.replied_get_catalog_apps reply r p

unfoldable pub run : List Event → Page → Page
unfolding handle
run [] p = p
run (e ∷ es) p = run es (handle e p).0
