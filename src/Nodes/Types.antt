-- ===== src/Nodes/Types.antt =====
-- The page of node-mng.component.ts, its buttons, and what it asks of nodes.
--
-- A node is an object that the tables and the dialogs share. A field of the kit's status that is
-- undefined is false here: the code reads these fields only by their truth.
use hellogit.Common.{
  Text, codes, text_eq, ℕ, String, Bool, true, false, not, ◌&&◌, ◌||◌, Option, none, some, List, [],
  if◌then◌else◌,
}

pub record Job : Type 0 where
  pub job_name : Text
  pub complete : Bool

-- The fields of a node that the page reads or writes.
pub record Node : Type 0 where
  pub hostname : Text
  pub node_type : Text
  pub deployment_type : Text
  pub jobs : Option (List Job)
  pub vpn_status : Option Text
  pub is_deployed : Option Bool
  pub is_removing : Option Bool

pub record KitStatus : Type 0 where
  pub esxi_settings_configured : Bool
  pub kit_settings_configured : Bool
  pub general_settings_configured : Bool
  pub control_plane_deployed : Bool
  pub base_kit_deployed : Bool
  pub ready_to_deploy : Bool
  pub jobs_running : Bool
  pub deploy_kit_running : Bool

-- The settings of the kit are passed on to a dialog only, and known by a name.
pub record Page : Type 0 where
  pub setup_nodes : List ℕ
  pub nodes : List ℕ
  pub iso_sensor_detected : Bool
  pub kit_status : KitStatus
  pub kit_settings : Option Text
  pub objects : ℕ → Node
  pub next : ℕ

pub data Effect : Type 0 where
  get_nodes get_kit_status get_kit_settings deploy refresh setup : Effect
  update_device_facts get_open_vpn_certs delete_request get_installed_apps : Text → Effect
  open_info : ℕ → Effect
  open_add : Option Text → List ℕ → List ℕ → Effect
  confirm_refresh confirm_redeploy download : Effect
  -- The node, the title and the message of the dialog that asks.
  confirm_delete : ℕ → Text → Text → Effect
  save_as display : Text → Effect
  open_stdout : Text → Effect
  display_error success_snackbar error_snackbar : String → Effect

abbrev pub Outcome : Type 0
Outcome = Page × List Effect

abbrev pub blank : ℕ → Node
blank _ = record {
  hostname = [];
  node_type = [];
  deployment_type = [];
  jobs = none;
  vpn_status = none;
  is_deployed = none;
  is_removing = none;
}

abbrev pub no_status : KitStatus
no_status = record {
  esxi_settings_configured = false;
  kit_settings_configured = false;
  general_settings_configured = false;
  control_plane_deployed = false;
  base_kit_deployed = false;
  ready_to_deploy = false;
  jobs_running = false;
  deploy_kit_running = false;
}

unfoldable pub disable_refresh_kit_button : Page → Bool
disable_refresh_kit_button p =
    let s = p.kit_status in
    if not s.base_kit_deployed && s.jobs_running then true else not s.base_kit_deployed

unfoldable pub disable_setup_control_plane_button : Page → Bool
disable_setup_control_plane_button p =
    let s = p.kit_status in
    not (
      (not s.control_plane_deployed && s.esxi_settings_configured && s.kit_settings_configured)
      && not s.jobs_running)

unfoldable pub disable_add_node_button : Page → Bool
disable_add_node_button p = p.kit_status.deploy_kit_running

unfoldable pub disable_deploy_kit_button : Page → Bool
disable_deploy_kit_button p = let s = p.kit_status in not (not s.jobs_running && s.ready_to_deploy)

abbrev pub is_type : String → Node → Bool
is_type name n = text_eq n.node_type (codes name)

abbrev pub is_iso : Node → Bool
is_iso n = text_eq n.deployment_type (codes "Iso")

-- undefined is false where it is tested.
abbrev pub truth : Option Bool → Bool
truth none = false
truth (some b) = b

unfoldable pub can_refresh_device_facts : Node → Bool
can_refresh_device_facts n = truth n.is_deployed

unfoldable pub is_iso_button_group : Node → Bool
is_iso_button_group n = is_type "Sensor" n && is_iso n

-- The template passes no node.
unfoldable pub is_iso_node_deployed : Option Node → Bool
is_iso_node_deployed none = false
is_iso_node_deployed (some n) = truth n.is_deployed

unfoldable pub can_delete_node : Node → Bool
can_delete_node n =
    (is_type "Sensor" n || is_type "Service" n || is_type "MinIO" n)
    || (is_type "Server" n && not (truth n.is_deployed))

unfoldable pub get_vpn_status : Node → Bool
get_vpn_status n =
    if is_type "Sensor" n && is_iso n
    then (elim n.vpn_status [ none ↦ false | some s ↦ true ])
    else false
