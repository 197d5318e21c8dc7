-- ===== src/AddNode/Tests.antt =====
-- A sensor that is there already, the services of Kubernetes at .64, and another machine at .52.
use hellogit.Common.{Text, codes, true, false, ◌≡◌, refl, ◌↔◌, none, some, List, [], ◌∷◌, length}
use hellogit.Rest.{ok}
use hellogit.AddNode.Types.{Node, Form, Settings, Dialog, get_used}
use hellogit.AddNode.Addresses.{
  is_among, digits_of, to_string, leading_digits, parse_int, push_loop, k8_ips, save_k8_ips,
  first_entries, remove_duplicate_entries, first_label, validation_refs, up_to_last_dot, update_for,
  update_when, update_available,
}
use hellogit.Subnet.{split_at}
use hellogit.AddNode.Handlers.{
  constructed, update_node_type_radio_options, ng_on_init, initialize_node_form_group,
  update_validation_refs, replied_get_used_ip_addresses, replied_get_unused_ip_addresses,
  change_node_type, change_deployment_type, can_display_ips, duplicated, replied_add_node,
}
use hellogit.AddNode.Offered.{IsInRange, is_taken, replied_get_used_ip_addresses-Offers}
use hellogit.AddNode.Race.{opened, change_node_type-shows}

abbrev sensor : Node
sensor = record {
  hostname = codes "sensor1.lan";
  ip_address = codes "10.40.12.55";
  mac_address = none;
  node_type = codes "Sensor";
}

abbrev settings : Settings
settings = record {
  controller_interface = some (codes "10.40.12.10");
  netmask = some (codes "255.255.255.0");
}

abbrev form : Form
form = record {
  hostname = codes "sensor2";
  ip_address = codes "10.40.12.53";
  node_type = some (codes "Sensor");
  deployment_type = some (codes "Virtual");
  mac_address = none;
  raid0_override = false;
  unique_hostnames = [];
  unique_ips = [];
  unique_macs = none;
}

abbrev started : Dialog
started = (ng_on_init (constructed (codes "10.40.12.64") (sensor ∷ []) [])).0

abbrev typed : Dialog
typed = record (opened form settings started) { node_type = some (codes "Sensor") }

abbrev others : List Text
others = codes "10.40.12.52" ∷ []

abbrev answered : Dialog
answered = (replied_get_used_ip_addresses false (ok others) typed).0

k8_ips_count : length (started.validation_k8_ips) ≡ 32
unfolding ng_on_init update_node_type_radio_options save_k8_ips k8_ips split_at parse_int
    leading_digits push_loop to_string digits_of constructed
k8_ips_count = refl

to_string_105 : to_string 105 ≡ codes "105"
unfolding to_string digits_of
to_string_105 = refl

parse_int_octet : parse_int (codes "0/27") ≡ some 0
unfolding parse_int leading_digits
parse_int_octet = refl

first_label_sensor : first_label sensor.hostname ≡ codes "sensor1"
unfolding first_label
first_label_sensor = refl

-- 46 addresses, less 32 of Kubernetes, the sensor's, and the other machine's.
available_count : length answered.available_ips ≡ 12
unfolding ng_on_init update_node_type_radio_options save_k8_ips k8_ips split_at parse_int
    leading_digits push_loop to_string digits_of constructed replied_get_used_ip_addresses
    update_validation_refs validation_refs remove_duplicate_entries first_entries update_available
    update_when update_for up_to_last_dot
available_count = refl

-- A duplicate's name is in the validator of the next, until the addresses are asked for again.
abbrev next : Dialog
next =
    (replied_add_node none
      (record answered { create_duplicate = true; node_form_group = some form })).0

next_names : next.validation_hostnames ≡ codes "sensor1" ∷ codes "sensor2" ∷ []
unfolding replied_add_node duplicated initialize_node_form_group replied_get_used_ip_addresses
    update_validation_refs validation_refs first_label update_available update_when update_for
    ng_on_init update_node_type_radio_options save_k8_ips constructed
next_names = refl

abbrev changed : Dialog
changed =
    (replied_get_used_ip_addresses false (ok others)
      (change_deployment_type (codes "Baremetal") next).0).0

changed_names : changed.validation_hostnames ≡ codes "sensor1" ∷ []
unfolding replied_add_node duplicated initialize_node_form_group replied_get_used_ip_addresses
    update_validation_refs validation_refs first_label update_available update_when update_for
    ng_on_init update_node_type_radio_options save_k8_ips constructed change_deployment_type
changed_names = refl

replied_get_used_ip_addresses-Offers_example :
    (is_among
          (replied_get_used_ip_addresses false (ok others) typed).0.available_ips
          (codes "10.40.12.53")
        ≡ true
      ↔ IsInRange (codes "Sensor") (codes "10.40.12.10") (codes "10.40.12.53")
        × (is_taken typed others (codes "10.40.12.53") ≡ false))
    × ((replied_get_used_ip_addresses false (ok others) typed).0.wait_for_new_ips ≡ false)
replied_get_used_ip_addresses-Offers_example =
    replied_get_used_ip_addresses-Offers (codes "Sensor") (codes "10.40.12.10") others form typed
      (codes "10.40.12.53") refl refl refl

abbrev hidden : Dialog
hidden = (change_deployment_type (codes "Virtual") (opened form settings started)).0

abbrev shown : Dialog
shown =
    (replied_get_unused_ip_addresses false (ok (codes "10.40.12.64" ∷ []))
      (change_node_type (codes "MinIO") hidden).0).0

change_node_type-shows_example :
    (can_display_ips hidden ≡ true)
    × (can_display_ips shown ≡ false)
    × (shown.available_ips ≡ codes "10.40.12.64" ∷ [])
    × ((replied_get_unused_ip_addresses false
          (ok (codes "10.40.12.64" ∷ []))
          (change_node_type (codes "MinIO") hidden).0).1
        ≡ get_used false settings.controller_interface settings.netmask ∷ [])
change_node_type-shows_example =
    change_node_type-shows (codes "Virtual") (codes "inIO") (codes "0.40.12.10") settings.netmask
      b'1' b'M' form started (codes "10.40.12.64" ∷ [])
