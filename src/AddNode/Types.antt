-- ===== src/AddNode/Types.antt =====
-- The dialog of add-node-dialog.component.ts, and what it asks of others.
--
-- An array that is undefined is empty here: those are read only after an answer has set them. An
-- address that is null is the empty text, as it is before one is chosen. The fields of a virtual
-- machine, which the form of the child component writes, and the marks of touched and dirty are left.
use hellogit.Common.{Text, String, Bool, Option, List}
use hellogit.Mips.{Errors}

-- The fields of a node that the dialog reads.
pub record Node : Type 0 where
  pub hostname : Text
  pub ip_address : Text
  pub mac_address : Option Text
  pub node_type : Text

-- The form, with the arrays of the validators for different values; the one of the MAC address is
-- set or not.
pub record Form : Type 0 where
  pub hostname : Text
  pub ip_address : Text
  pub node_type : Option Text
  pub deployment_type : Option Text
  pub mac_address : Option Text
  pub raid0_override : Bool
  pub unique_hostnames : List Text
  pub unique_ips : List Text
  pub unique_macs : Option (List (Option Text))

-- The fields of the general settings that the dialog reads.
pub record Settings : Type 0 where
  pub controller_interface : Option Text
  pub netmask : Option Text

-- MatOptionInterface
pub record MatOption : Type 0 where
  pub name : String
  pub value : String
  pub disabled : Bool

pub record Dialog : Type 0 where
  pub node_form_group : Option Form
  pub control_plane_node_detected : Bool
  pub minio_node_detected : Bool
  pub available_ips : List Text
  pub used_ips : List Text
  pub node_type : Option Text
  pub deployment_options : List MatOption
  pub create_duplicate : Bool
  pub settings : Settings
  pub esxi_settings_configured : Bool
  pub kubernetes_services_cidr : Text
  pub nodes : List Node
  pub setup_nodes : List Node
  pub validation_hostnames : List Text
  pub validation_ips : List Text
  pub validation_k8_ips : List Text
  pub validation_macs : List (Option Text)
  pub wait_for_new_ips : Bool

-- A request for addresses keeps whether the form is to be initialized after it.
pub data Effect : Type 0 where
  get_kit_status get_general_settings : Effect
  get_unused get_used : Bool → Option Text → Option Text → Effect
  add_node : Form → Effect
  set_default_values : Option Text → Effect
  set_virtual_form_validation : Text → Effect
  close_dialog : Effect
  display : Text → Effect
  success_snackbar : Text → Effect
  display_error error_snackbar : String → Effect

-- The errors that `add_node` answers with.
pub data AddError : Type 0 where
  message_class : String → AddError
  post_array : List Text → AddError
  post_object : Errors → AddError
  post_other other_error : AddError

abbrev pub Outcome : Type 0
Outcome = Dialog × List Effect
