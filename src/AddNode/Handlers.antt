-- ===== src/AddNode/Handlers.antt =====
-- The handlers of add-node-dialog.component.ts: its start, its controls, and the answers.
use hellogit.Common.{
  Text, codes, text_eq, ◌-◌, String, Bool, true, false, not, ◌||◌, Option, none, some, List, [],
  ◌∷◌, ◌++◌, if◌then◌else◌, length, keep, any,
}
use hellogit.Rest.{Reply, ok, error_message_class, http_error}
use hellogit.Mips.{array_loop, construct_post_validation_error_message, shown}
use hellogit.AddNode.Types.{
  Node, Form, Settings, MatOption, Dialog, Effect, AddError, Outcome, get_kit_status,
  get_general_settings, get_unused, get_used, add_node, set_default_values,
  set_virtual_form_validation, close_dialog, display, success_snackbar, display_error,
  error_snackbar, message_class, post_array, post_object, post_other, other_error,
}
use hellogit.AddNode.Addresses.{save_k8_ips, validation_refs, update_available}

unfoldable pub constructed : Text → List Node → List Node → Dialog
constructed cidr nodes setup_nodes = record {
  node_form_group = none;
  control_plane_node_detected = false;
  minio_node_detected = false;
  available_ips = [];
  used_ips = [];
  node_type = none;
  deployment_options = [];
  create_duplicate = false;
  settings = record { controller_interface = none; netmask = none };
  esxi_settings_configured = false;
  kubernetes_services_cidr = cidr;
  nodes = nodes;
  setup_nodes = setup_nodes;
  validation_hostnames = [];
  validation_ips = [];
  validation_k8_ips = [];
  validation_macs = [];
  wait_for_new_ips = true;
}

unfoldable pub update_node_type_radio_options : Dialog → Dialog
update_node_type_radio_options d = record d {
  minio_node_detected =
      d.minio_node_detected || any (λ n. text_eq n.node_type (codes "MinIO")) d.nodes;
  control_plane_node_detected =
      d.control_plane_node_detected
      || any (λ n. text_eq n.node_type (codes "Control-Plane")) d.setup_nodes;
}

unfoldable pub ng_on_init : Dialog → Outcome
unfolding update_node_type_radio_options save_k8_ips
ng_on_init d = (save_k8_ips (update_node_type_radio_options d), get_kit_status ∷ [])

abbrev pub is_deployment : String → Option Form → Bool
is_deployment type none = false
is_deployment type (some f) = elim f.deployment_type [
  | none ↦ false
  | some t ↦ text_eq t (codes type)
]

unfoldable pub is_baremetal_deployment : Dialog → Bool
is_baremetal_deployment d = is_deployment "Baremetal" d.node_form_group

unfoldable pub is_virtual_machine_deployment : Dialog → Bool
is_virtual_machine_deployment d = is_deployment "Virtual" d.node_form_group

unfoldable pub is_iso_sensor_deployment : Dialog → Bool
is_iso_sensor_deployment d = is_deployment "Iso" d.node_form_group

-- DEPLOYMENT_OPTIONS_NODE, by index
abbrev baremetal_option : MatOption
baremetal_option = record { name = "Baremetal"; value = "Baremetal"; disabled = false }

abbrev virtual_option : Bool → MatOption
virtual_option off = record { name = "Virtual Machine"; value = "Virtual"; disabled = off }

abbrev iso_option : MatOption
iso_option = record { name = "Iso Remote Sensor Download"; value = "Iso"; disabled = false }

unfoldable pub options_for : Text → Bool → List MatOption
options_for t configured =
    (baremetal_option ∷ virtual_option (not configured) ∷ [])
    ++ (if text_eq t (codes "Sensor") then iso_option ∷ [] else [])

-- The event's value; without a form the code throws after the type is set.
unfoldable pub change_node_type : Text → Dialog → Outcome
unfolding options_for is_virtual_machine_deployment update_available
change_node_type t d = elim d.node_form_group [
  | none ↦ (record d { node_type = some t }, [])
  | some f ↦ (
    update_available (record d {
      node_type = some t;
      deployment_options = options_for t d.esxi_settings_configured;
      create_duplicate =
          if text_eq t (codes "Control-Plane") || text_eq t (codes "MinIO")
          then false
          else d.create_duplicate;
    }),
    if is_virtual_machine_deployment d
        then set_default_values (some t) ∷ set_virtual_form_validation t ∷ []
        else [],
  )
]

abbrev ask_unused : Bool → Dialog → Effect
ask_unused init d = get_unused init d.settings.controller_interface d.settings.netmask

-- `set_baremetal_validation_`
unfoldable pub set_baremetal_validation : Text → Dialog → Form → Form
set_baremetal_validation type d f = record f {
  unique_macs = if text_eq type (codes "Baremetal") then some d.validation_macs else none;
}

unfoldable pub change_deployment_type : Text → Dialog → Outcome
unfolding set_baremetal_validation
change_deployment_type type d = elim d.node_form_group [
  | none ↦ (record d { wait_for_new_ips = true }, ask_unused false d ∷ [])
  | some f ↦ (
    record d {
      wait_for_new_ips = true;
      node_form_group = some (set_baremetal_validation type d f);
    },
    ask_unused false d
        ∷ (if text_eq type (codes "Virtual")
            then set_default_values d.node_type ∷ set_virtual_form_validation type ∷ []
            else []),
  )
]

unfoldable pub can_display_ips : Dialog → Bool
can_display_ips d = d.wait_for_new_ips

unfoldable pub cancel : Dialog → Outcome
cancel d = (d, close_dialog ∷ [])

unfoldable pub add : Dialog → Outcome
add d = (d, elim d.node_form_group [ none ↦ [] | some f ↦ add_node f ∷ [] ])

unfoldable pub check_not_node_type : Dialog → Bool
check_not_node_type d = elim d.node_type [
  | none ↦ true
  | some t ↦ not (text_eq t (codes "Control-Plane") || text_eq t (codes "MinIO"))
]

unfoldable pub change_duplicate_node : Bool → Dialog → Outcome
change_duplicate_node checked d = (record d { create_duplicate = checked }, [])

abbrev empty_form : Form
empty_form = record {
  hostname = [];
  ip_address = [];
  node_type = none;
  deployment_type = none;
  mac_address = none;
  raid0_override = false;
  unique_hostnames = [];
  unique_ips = [];
  unique_macs = none;
}

-- `initialize_node_form_group_`, from a previous form or none
unfoldable pub initialize_node_form_group : Option Form → Dialog → Dialog
initialize_node_form_group previous d =
    let f : Form = elim previous [ none ↦ empty_form | some old ↦ old ] in
    record d {
      node_form_group = some (record f {
        ip_address = [];
        unique_hostnames = d.validation_hostnames;
        unique_ips = d.validation_ips;
        unique_macs = if is_deployment "Baremetal" (some f) then some d.validation_macs else none;
      });
    }

unfoldable pub update_validation_refs : Bool → Dialog → Dialog
unfolding validation_refs initialize_node_form_group update_available
update_validation_refs initialize d =
    if initialize
    then initialize_node_form_group none (validation_refs d)
    else update_available (validation_refs d)

unfoldable pub replied_get_kit_status : Reply Bool → Dialog → Outcome
replied_get_kit_status (ok configured) d =
    (record d { esxi_settings_configured = configured }, get_general_settings ∷ [])
replied_get_kit_status (error_message_class m) d = (d, display_error m ∷ [])
replied_get_kit_status http_error d = (d, error_snackbar "retrieving kit status" ∷ [])

unfoldable pub replied_get_general_settings : Reply Settings → Dialog → Outcome
replied_get_general_settings (ok response) d = (
  record d { settings = response; wait_for_new_ips = true },
  get_unused true response.controller_interface response.netmask ∷ [],
)
replied_get_general_settings (error_message_class m) d = (d, display_error m ∷ [])
replied_get_general_settings http_error d = (d, error_snackbar "retrieving general settings" ∷ [])

unfoldable pub replied_get_unused_ip_addresses : Bool → Reply (List Text) → Dialog → Outcome
replied_get_unused_ip_addresses initialize (ok response) d = (
  record d { available_ips = response },
  get_used initialize d.settings.controller_interface d.settings.netmask ∷ [],
)
replied_get_unused_ip_addresses initialize (error_message_class m) d = (d, display_error m ∷ [])
replied_get_unused_ip_addresses initialize http_error d =
    (d, error_snackbar "retrieving unused ip addresses" ∷ [])

unfoldable pub replied_get_used_ip_addresses : Bool → Reply (List Text) → Dialog → Outcome
unfolding update_validation_refs
replied_get_used_ip_addresses initialize (ok response) d =
    (update_validation_refs initialize (record d { used_ips = response }), [])
replied_get_used_ip_addresses initialize (error_message_class m) d = (d, display_error m ∷ [])
replied_get_used_ip_addresses initialize http_error d =
    (d, error_snackbar "retrieving unused ip addresses" ∷ [])

-- What the answer to `add_node` does for a duplicate.
unfoldable pub duplicated : Form → Dialog → Dialog
unfolding initialize_node_form_group
duplicated f d = initialize_node_form_group (some f) (record d {
  available_ips = keep (λ ip. not (text_eq ip f.ip_address)) d.available_ips;
  used_ips = d.used_ips ++ f.ip_address ∷ [];
  validation_ips = d.validation_ips ++ f.ip_address ∷ [];
  validation_hostnames = d.validation_hostnames ++ f.hostname ∷ [];
  validation_macs = elim f.mac_address [
    | none ↦ d.validation_macs
    | some mac ↦ d.validation_macs ++ some mac ∷ []
  ];
})

unfoldable pub add_failed : AddError → List Effect
unfolding array_loop construct_post_validation_error_message
add_failed (message_class m) = display_error m ∷ []
add_failed (post_array errors) = display (shown (array_loop (length errors - 1) 0 none errors)) ∷ []
add_failed (post_object errors) = display (construct_post_validation_error_message errors) ∷ []
add_failed post_other =
    display (codes "Post validation message was not returned in correct format") ∷ []
add_failed other_error = error_snackbar "adding node" ∷ []

-- The node was added; without a form nothing was asked.
unfoldable pub node_added : Option Form → Dialog → Outcome
unfolding duplicated
node_added none d = (d, [])
node_added (some f) d =
    let message =
      success_snackbar (codes "started node creation job for " ++ f.hostname ++ codes ".") in
    if d.create_duplicate then (duplicated f d, message ∷ []) else (d, close_dialog ∷ message ∷ [])

-- The answer to `add_node`, an error or not
unfoldable pub replied_add_node : Option AddError → Dialog → Outcome
unfolding node_added add_failed
replied_add_node none d = node_added d.node_form_group d
replied_add_node (some error) d = (d, add_failed error)
