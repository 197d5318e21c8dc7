-- ===== src/AddNode/Addresses.antt =====
-- The addresses that add-node-dialog.component.ts computes: those of the services of Kubernetes, those
-- that are in use, and those that a node of a type can have.
use hellogit.Common.{
  Text, codes, text_eq, ℕ, zero, suc, ◌+◌, ◌/◌, ◌%◌, ◌==◌, leb, ltb, Bool, false, not, ◌&&◌, ◌||◌,
  Option, none, some, List, [], ◌∷◌, ◌++◌, map, if◌then◌else◌, any, keep,
}
use hellogit.Subnet.{split_at, number_from}
use hellogit.AddNode.Types.{Form, Dialog}

-- `includes` of an array of texts
abbrev pub is_among : List Text → Text → Bool
is_among ts t = any (text_eq t) ts

-- `toString`: a number has at most as many digits as its successor says.
unfoldable pub digits_of : ℕ → ℕ → Text
digits_of zero n = []
digits_of (suc fuel) n =
    let rest = digits_of fuel (n / 10) in
    if ltb n 10 then (48 + n) ∷ [] else rest ++ (48 + n % 10) ∷ []

unfoldable pub to_string : ℕ → Text
unfolding digits_of
to_string n = digits_of (suc n) n

-- `parseInt(_, 10)`: the digits that a text begins with; NaN is none. No octet begins with a sign
-- or with white space.
abbrev pub is_digit : ℕ → Bool
is_digit c = leb 48 c && leb c 57

unfoldable pub leading_digits : Text → Text
leading_digits [] = []
leading_digits (c ∷ cs) = let rest = leading_digits cs in if is_digit c then c ∷ rest else []

abbrev pub int_of : Text → Option ℕ
int_of [] = none
int_of (c ∷ cs) = some (number_from 0 (c ∷ cs))

unfoldable pub parse_int : Text → Option ℕ
unfolding leading_digits
parse_int t = int_of (leading_digits t)

-- A loop that pushes an address for each of so many numbers.
unfoldable pub push_loop : Text → ℕ → ℕ → List Text
unfolding to_string
push_loop subnet i zero = []
push_loop subnet i (suc n) = (subnet ++ to_string i) ∷ push_loop subnet (suc i) n

-- `save_k8_ips_`: with fewer than four parts, or NaN, the loop does not begin.
unfoldable pub k8_ips : List Text → List Text
unfolding push_loop parse_int
k8_ips (a ∷ b ∷ c ∷ d ∷ others) = elim (parse_int d) [
  | none ↦ []
  | some start ↦ push_loop (a ++ codes "." ++ b ++ codes "." ++ c ++ codes ".") start 32
]
k8_ips _ = []

unfoldable pub save_k8_ips : Dialog → Dialog
unfolding k8_ips split_at
save_k8_ips d = record d { validation_k8_ips = k8_ips (split_at b'.' d.kubernetes_services_cidr) }

-- `remove_duplicate_entries`: an entry is kept where it is the first, so unless it stands before.
unfoldable pub first_entries : List Text → List Text → List Text
first_entries before [] = []
first_entries before (x ∷ xs) =
    let rest = first_entries (x ∷ before) xs in if is_among before x then rest else x ∷ rest

unfoldable pub remove_duplicate_entries : List Text → List Text
unfolding first_entries
remove_duplicate_entries xs = first_entries [] xs

-- `split('.')[0]`
unfoldable pub first_label : Text → Text
first_label [] = []
first_label (c ∷ cs) = let rest = first_label cs in if c == b'.' then [] else c ∷ rest

-- The arrays of `update_validation_refs_`
unfoldable pub validation_refs : Dialog → Dialog
unfolding first_label remove_duplicate_entries
validation_refs d = record d {
  validation_hostnames = map (λ n. first_label n.hostname) d.nodes;
  validation_ips =
      remove_duplicate_entries
        ((map (λ n. n.ip_address) d.nodes ++ d.validation_k8_ips) ++ d.used_ips);
  validation_macs = map (λ n. n.mac_address) d.nodes;
}

-- `substring(0, lastIndexOf('.') + 1)`
unfoldable pub up_to_last_dot : Text → Text
up_to_last_dot [] = []
up_to_last_dot (c ∷ cs) =
    let rest = up_to_last_dot cs in if any (λ e. e == b'.') (c ∷ cs) then c ∷ rest else []

abbrev pub is_sensor_or_minio : Text → Bool
is_sensor_or_minio t = text_eq t (codes "Sensor") || text_eq t (codes "MinIO")

abbrev pub offset : Text → ℕ
offset t = if is_sensor_or_minio t then 50 else 40

abbrev pub number_of_addrs : Text → ℕ
number_of_addrs t = if is_sensor_or_minio t then 46 else 10

abbrev is_baremetal : Form → Bool
is_baremetal f = elim f.deployment_type [ none ↦ false | some t ↦ text_eq t (codes "Baremetal") ]

-- The controls that `update_available_hostname_ip_and_mac_addresses_` resets.
unfoldable pub reset_controls : Dialog → Form → Form
reset_controls d f = record f {
  unique_hostnames = d.validation_hostnames;
  ip_address = [];
  unique_ips = d.validation_ips;
  mac_address = if is_baremetal f then none else f.mac_address;
  unique_macs = if is_baremetal f then some d.validation_macs else f.unique_macs;
}

-- After its early return, for a type of node and an interface.
unfoldable pub update_for : Text → Text → Form → Dialog → Dialog
unfolding reset_controls push_loop up_to_last_dot
update_for t interface f d = record d {
  node_form_group = some (reset_controls d f);
  available_ips =
      keep (λ ip. not (is_among d.validation_ips ip))
        (push_loop (up_to_last_dot interface) (offset t) (number_of_addrs t));
  wait_for_new_ips = false;
}

-- undefined and the empty text are not true.
abbrev pub truthy : Option Text → Option Text
truthy none = none
truthy (some []) = none
truthy (some (c ∷ cs)) = some (c ∷ cs)

-- For an interface, a type of node and a form, or what of them is missing: without a form the code
-- throws.
unfoldable pub update_when : Option Text → Option Text → Option Form → Dialog → Dialog
unfolding update_for
update_when (some interface) (some t) (some f) d = update_for t interface f d
update_when _ _ _ d = d

unfoldable pub update_available : Dialog → Dialog
unfolding update_when
update_available d =
    update_when (truthy d.settings.controller_interface) (truthy d.node_type) d.node_form_group d
