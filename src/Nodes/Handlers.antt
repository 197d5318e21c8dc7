-- ===== src/Nodes/Handlers.antt =====
-- The handlers of node-mng.component.ts: clicks, dialogs that closed, answers and messages.
use hellogit.Common.{
  Text, codes, text_eq, join_with, ℕ, ◌+◌, ltb, Bool, true, false, not, Option, none, some, List,
  [], ◌∷◌, ◌++◌, map, if◌then◌else◌, length, update, keep, any, allocate, fresh,
}
use hellogit.Rest.{Reply, ok, error_message_class, http_error}
use hellogit.Nodes.Types.{
  Job, Node, KitStatus, Page, Effect, Outcome, get_nodes, get_kit_status, get_kit_settings, deploy,
  refresh, setup, update_device_facts, get_open_vpn_certs, delete_request, get_installed_apps,
  open_info, open_add, confirm_refresh, confirm_redeploy, download, confirm_delete, save_as,
  display, open_stdout, display_error, success_snackbar, error_snackbar, blank, no_status, is_type,
  is_iso,
}

unfoldable pub constructed : Page
constructed = record {
  setup_nodes = [];
  nodes = [];
  iso_sensor_detected = false;
  kit_status = no_status;
  kit_settings = none;
  objects = blank;
  next = 0;
}

unfoldable pub ng_on_init : Page → Outcome
ng_on_init p = (p, get_nodes ∷ get_kit_status ∷ get_kit_settings ∷ [])

-- The loop over the jobs of a node in `update_nodes_data_`
unfoldable pub jobs_loop : Node → List Job → Node
jobs_loop n [] = n
jobs_loop n (j ∷ js) =
    jobs_loop
      (record n {
        is_deployed =
            if text_eq j.job_name (codes "deploy") then some j.complete else n.is_deployed;
        is_removing = if text_eq j.job_name (codes "remove") then some true else n.is_removing;
      })
      js

unfoldable pub marked : Node → Node
unfolding jobs_loop
marked n = elim n.jobs [ none ↦ n | some js ↦ jobs_loop n js ]

-- `update_nodes_data_`: the nodes of a response are new objects. Each is marked, seen if it is an
-- ISO's, and pushed to the one array or the other; the array of nodes is then filtered twice.
unfoldable pub update_nodes_data : List Node → Page → Page
unfolding marked allocate fresh
update_nodes_data response p =
    let o = allocate p.objects p.next (map marked response) in
    let rs = fresh p.next (map marked response) in
    let new_nodes = keep (λ r. not (is_type "Control-Plane" (o r))) rs in
    let not_mips = keep (λ r. not (is_type "MIP" (o r))) new_nodes in
    record p {
      objects = o;
      next = p.next + length response;
      nodes = keep (λ r. not (is_type "Control-Plane" (o r))) not_mips;
      setup_nodes = keep (λ r. is_type "Control-Plane" (o r)) rs;
      iso_sensor_detected = any (λ r. is_iso (o r)) rs;
    }

unfoldable pub on_node_state_change : List Node → Page → Outcome
unfolding update_nodes_data
on_node_state_change response p = (update_nodes_data response p, [])

unfoldable pub on_kit_status_change : KitStatus → Page → Outcome
on_kit_status_change response p = (record p { kit_status = response }, [])

unfoldable pub refresh_device_facts : ℕ → Page → Outcome
refresh_device_facts r p = (p, update_device_facts (p.objects r).hostname ∷ [])

unfoldable pub open_node_info_dialog_window : ℕ → Page → Outcome
open_node_info_dialog_window r p = (p, open_info r ∷ [])

-- The dialog is given the settings and the nodes of both tables.
unfoldable pub open_add_node_dialog_window : Page → Outcome
open_add_node_dialog_window p = (p, open_add p.kit_settings p.nodes p.setup_nodes ∷ [])

unfoldable pub download_iso : Page → Outcome
download_iso p = (p, download ∷ [])

unfoldable pub download_open_vpn_certs : ℕ → Page → Outcome
download_open_vpn_certs r p = (p, get_open_vpn_certs (p.objects r).hostname ∷ [])

unfoldable pub deploy_kit : Page → Outcome
deploy_kit p = (p, (if p.kit_status.base_kit_deployed then confirm_redeploy else deploy) ∷ [])

-- A dialog to confirm closed, with the option to confirm or not: that of `redeploy_kit_`, and that
-- of `refresh_kit`.
unfoldable pub redeploy_kit_closed : Bool → Page → Outcome
redeploy_kit_closed confirmed p = (p, if confirmed then deploy ∷ [] else [])

unfoldable pub refresh_kit : Page → Outcome
refresh_kit p = (p, confirm_refresh ∷ [])

unfoldable pub refresh_kit_closed : Bool → Page → Outcome
refresh_kit_closed confirmed p = (p, if confirmed then refresh ∷ [] else [])

unfoldable pub setup_control_plane : Page → Outcome
setup_control_plane p = (p, setup ∷ [])

unfoldable pub delete_node : ℕ → Page → Outcome
delete_node r p = (p, get_installed_apps (p.objects r).hostname ∷ [])

-- What `open_delete_node_dialog_window_` is given in an array: an application, or a text, of which
-- the property `application` is undefined.
pub data Listed : Type 0 where
  app text : Text → Listed

unfoldable pub application : Listed → Option Text
application (app a) = some a
application (text t) = none

-- `join` writes nothing for undefined.
abbrev pub joined : Option Text → Text
joined none = []
joined (some t) = t

unfoldable pub open_delete_node_dialog_window : ℕ → List Listed → Page → List Effect
unfolding application
open_delete_node_dialog_window r apps p =
    let name = (p.objects r).hostname in
    let asked = codes "Are you sure you want delete " ++ name ++ codes "?" in
    let message =
      if ltb 0 (length apps)
      then asked
        ++ codes "\n\n       The following applications will be uninstalled: \n "
        ++ join_with (codes ", ") (map (λ a. joined (application a)) apps)
      else asked in
    confirm_delete r (codes "Delete " ++ name ++ codes "?") message ∷ []

unfoldable pub delete_closed : Bool → ℕ → Page → Outcome
delete_closed confirmed r p =
    (p, if confirmed then delete_request (p.objects r).hostname ∷ [] else [])

-- The answer of `get_installed_apps`: the names of the applications.
unfoldable pub replied_get_catalog_apps : Reply (List Text) → ℕ → Page → Outcome
unfolding open_delete_node_dialog_window application
replied_get_catalog_apps (ok response) r p =
    let apps = map app response in
    let installed_apps =
      if ltb 0 (length apps) then map (λ a. text (joined (application a))) apps else [] in
    (p, open_delete_node_dialog_window r installed_apps p)
replied_get_catalog_apps (error_message_class m) r p =
    (p, error_snackbar "retrieving catalog applications" ∷ [])
replied_get_catalog_apps http_error r p = (p, error_snackbar "retrieving catalog applications" ∷ [])

unfoldable pub replied_delete_node : Reply Text → ℕ → Page → Outcome
replied_delete_node (ok job) r p = (
  record p { objects = update p.objects r (record (p.objects r) { is_removing = some true }) },
  success_snackbar " started delete node job" ∷ [],
)
replied_delete_node (error_message_class m) r p = (p, display_error m ∷ [])
replied_delete_node http_error r p = (p, error_snackbar "deleting node" ∷ [])

unfoldable pub replied_get_nodes : Reply (List Node) → Page → Outcome
unfolding update_nodes_data
replied_get_nodes (ok response) p = (update_nodes_data response p, [])
replied_get_nodes (error_message_class m) p = (p, display_error m ∷ [])
replied_get_nodes http_error p = (p, error_snackbar "retrieving nodes" ∷ [])

unfoldable pub replied_get_kit_status : Reply KitStatus → Page → Outcome
replied_get_kit_status (ok response) p = (record p { kit_status = response }, [])
replied_get_kit_status (error_message_class m) p = (p, display_error m ∷ [])
replied_get_kit_status http_error p = (p, error_snackbar "retrieving kit status" ∷ [])

unfoldable pub replied_get_kit_settings : Reply Text → Page → Outcome
replied_get_kit_settings (ok response) p = (record p { kit_settings = some response }, [])
replied_get_kit_settings (error_message_class m) p = (p, display_error m ∷ [])
replied_get_kit_settings http_error p = (p, error_snackbar "retrieving kit settings" ∷ [])

unfoldable pub replied_update_device_facts : Reply Text → ℕ → Page → Outcome
replied_update_device_facts (ok response) r p = (
  p,
  display (
        codes "Device facts job started for "
        ++ (p.objects r).hostname
        ++ codes "  Check Notifications for results.")
      ∷ [],
)
replied_update_device_facts (error_message_class m) r p = (p, display_error m ∷ [])
replied_update_device_facts http_error r p = (p, error_snackbar "updating device facts" ∷ [])

unfoldable pub replied_get_open_vpn_certs : Reply Text → ℕ → Page → Outcome
replied_get_open_vpn_certs (ok response) r p =
    let name = (p.objects r).hostname in
    (
      p,
      save_as (name ++ codes ".conf") ∷ display (codes "Downloading VPN Config for " ++ name) ∷ [],
    )
replied_get_open_vpn_certs (error_message_class m) r p = (p, display_error m ∷ [])
replied_get_open_vpn_certs http_error r p = (p, error_snackbar "downloading open vpn certs" ∷ [])

unfoldable pub open_job_server_std_out_console : Text → Page → Outcome
open_job_server_std_out_console job_id p = (p, open_stdout job_id ∷ [])

unfoldable pub replied_deploy_kit : Reply Text → Page → Outcome
unfolding open_job_server_std_out_console
replied_deploy_kit (ok job_id) p = open_job_server_std_out_console job_id p
replied_deploy_kit (error_message_class m) p = (p, display_error m ∷ [])
replied_deploy_kit http_error p = (p, error_snackbar "downloading open vpn certs" ∷ [])

unfoldable pub replied_refresh_kit : Reply Text → Page → Outcome
replied_refresh_kit (ok job) p = (p, success_snackbar " started refresh kit job" ∷ [])
replied_refresh_kit (error_message_class m) p = (p, error_snackbar "starting refresh kit" ∷ [])
replied_refresh_kit http_error p = (p, error_snackbar "starting refresh kit" ∷ [])

unfoldable pub replied_setup_control_plane : Reply Text → Page → Outcome
replied_setup_control_plane (ok job) p =
    (p, success_snackbar " started setup control plane job" ∷ [])
replied_setup_control_plane (error_message_class m) p =
    (p, error_snackbar "starting setup control plane" ∷ [])
replied_setup_control_plane http_error p = (p, error_snackbar "starting setup control plane" ∷ [])
