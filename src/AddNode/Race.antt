-- ===== src/AddNode/Race.antt =====
-- A type of node that is chosen while add-node-dialog.component.ts waits for addresses.
use hellogit.Common.{Text, ℕ, true, false, Option, some, List, [], ◌∷◌, ◌≡◌, refl}
use hellogit.Rest.{ok}
use hellogit.AddNode.Types.{Form, Settings, Dialog, get_used}
use hellogit.AddNode.Addresses.{update_for, update_when, update_available}
use hellogit.AddNode.Handlers.{
  change_node_type, change_deployment_type, can_display_ips, replied_get_unused_ip_addresses,
}

-- The form is there, and the general settings came.
abbrev pub opened : Form → Settings → Dialog → Dialog
opened f s d = record d { node_form_group = some f; settings = s }

-- With a form and an interface of the controller: a type of deployment is chosen, a type of node before
-- an answer came, and then the answer comes that names the unused addresses. The dialog, which hid the
-- addresses, shows those of the answer as they are, whatever nodes have them, and has only asked for
-- the addresses in use.
pub change_node_type-shows :
    (type node_type interface : Text) (mask : Option Text) (i c : ℕ) (f : Form) (d : Dialog)
    (unused : List Text)
    → let s : Settings = record { controller_interface = some (i ∷ interface); netmask = mask } in
      let hidden = (change_deployment_type type (opened f s d)).0 in
      let chosen = (change_node_type (c ∷ node_type) hidden).0 in
      let answered = replied_get_unused_ip_addresses false (ok unused) chosen in
      (can_display_ips hidden ≡ true)
      × (can_display_ips answered.0 ≡ false)
      × (answered.0.available_ips ≡ unused)
      × (answered.1 ≡ get_used false (some (i ∷ interface)) mask ∷ [])
unfolding can_display_ips replied_get_unused_ip_addresses change_node_type change_deployment_type
    update_available update_when update_for
change_node_type-shows type node_type interface mask i c f d unused = (refl, refl, refl, refl)
