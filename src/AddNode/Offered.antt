-- ===== src/AddNode/Offered.antt =====
-- The addresses that add-node-dialog.component.ts offers.
use hellogit.Common.{
  Text, text_eq, text_eq-eq, text_eq_refl, ℕ, zero, suc, ◌+◌, ◌≤◌, ◌<◌, Bool, true, false, not,
  ◌&&◌, ◌||◌, some, List, [], ◌∷◌, ◌++◌, map, ◌≡◌, refl, sym, ap, ◌∙◌, ◌↔◌, inl, inr, keep, arith,
  Bool-cases, ℕ_discrete,
}
use hellogit.Rest.{ok}
use hellogit.AddNode.Types.{Form, Dialog}
use hellogit.AddNode.Addresses.{
  is_among, to_string, push_loop, first_entries, remove_duplicate_entries, validation_refs,
  up_to_last_dot, offset, number_of_addrs, update_for, truthy, update_when, update_available,
}
use hellogit.AddNode.Handlers.{update_validation_refs, replied_get_used_ip_addresses}

is_among-append :
    (xs ys : List Text) (t : Text) → is_among (xs ++ ys) t ≡ (is_among xs t || is_among ys t)
is_among-append [] ys t = refl
is_among-append (x ∷ xs) ys t = ground (arith, is_among-append xs ys t)

is_among-same : (xs : List Text) (t u : Text) → text_eq t u ≡ true → is_among xs u ≡ is_among xs t
is_among-same xs t u h = ap (is_among xs) (sym (text_eq-eq t u h))

first_entries-among :
    (before xs : List Text) (t : Text)
    → (is_among (first_entries before xs) t || is_among before t)
      ≡ (is_among xs t || is_among before t)
unfolding first_entries
first_entries-among before [] t = refl
first_entries-among before (x ∷ xs) t =
    let ih = first_entries-among (x ∷ before) xs t in
    elim (Bool-cases (text_eq t x)) [
      | inl h ↦ let same = is_among-same before t x h in ground (arith, ih, h, same)
      | inr h ↦ ground (arith, ih, h)
    ]

remove_duplicate_entries-among :
    (xs : List Text) (t : Text) → is_among (remove_duplicate_entries xs) t ≡ is_among xs t
unfolding remove_duplicate_entries
remove_duplicate_entries-among xs t = ground (arith, first_entries-among [] xs t)

is_among-keep :
    (p : Text → Bool) (xs : List Text) (t : Text) → is_among (keep p xs) t ≡ (is_among xs t && p t)
is_among-keep p [] t = refl
is_among-keep p (x ∷ xs) t =
    let ih = is_among-keep p xs t in
    elim (Bool-cases (text_eq t x)) [
      | inl h ↦ let same = ap p (text_eq-eq t x h) in ground (arith, ih, h, same)
      | inr h ↦ ground (arith, ih, h)
    ]

-- The subnet with a number of so many from one on.
abbrev IsPushed : Text → ℕ → ℕ → Text → Type 0
IsPushed subnet i n ip = (k : ℕ) × (i ≤ k) × (k < i + n) × (ip ≡ subnet ++ to_string k)

push_loop-pushes :
    (subnet : Text) (i n : ℕ) (ip : Text)
    → is_among (push_loop subnet i n) ip ≡ true
    → IsPushed subnet i n ip
unfolding push_loop
push_loop-pushes subnet i zero ip h = cc
push_loop-pushes subnet i (suc n) ip h = elim (Bool-cases (text_eq ip (subnet ++ to_string i))) [
  | inl e ↦ (i, omega arith, omega arith, text_eq-eq ip _ e)
  | inr e ↦
      let (k, low, high, eq) = push_loop-pushes subnet (suc i) n ip (ground (arith, h, e)) in
      (k, omega (arith, low), omega (arith, high), eq)
]

push_loop-all :
    (subnet : Text) (i n : ℕ) (ip : Text)
    → IsPushed subnet i n ip
    → is_among (push_loop subnet i n) ip ≡ true
unfolding push_loop
push_loop-all subnet i zero ip (k, low, high, eq) = absurd (omega (arith, low, high))
push_loop-all subnet i (suc n) ip (k, low, high, eq) = elim (ℕ_discrete i k) [
  | yes e ↦
      let first : text_eq ip (subnet ++ to_string i) ≡ true =
        rw (eq, e) (text_eq_refl (subnet ++ to_string k)) in
      ground (arith, first)
  | no ne ↦
      let later =
        push_loop-all subnet (suc i) n ip (k, omega (arith, low, ne), omega (arith, high), eq) in
      ground (arith, later)
]

-- An address that a node of a type can have on the controller's subnet.
abbrev pub IsInRange : Text → Text → Text → Type 0
IsInRange t interface ip = IsPushed (up_to_last_dot interface) (offset t) (number_of_addrs t) ip

-- A node of the page has it, a service of Kubernetes, or another machine.
abbrev pub is_taken : Dialog → List Text → Text → Bool
is_taken d used ip =
    (is_among (map (λ n. n.ip_address) d.nodes) ip || is_among d.validation_k8_ips ip)
    || is_among used ip

validation_refs-taken :
    (d : Dialog) (ip : Text)
    → is_among (validation_refs d).validation_ips ip ≡ is_taken d d.used_ips ip
unfolding validation_refs
validation_refs-taken d ip =
    let own = map (λ n. n.ip_address) d.nodes in
    remove_duplicate_entries-among ((own ++ d.validation_k8_ips) ++ d.used_ips) ip
    ∙ (is_among-append (own ++ d.validation_k8_ips) d.used_ips ip
        ∙ ap (λ b. b || is_among d.used_ips ip) (is_among-append own d.validation_k8_ips ip))

update_available-done :
    (t interface : Text) (f : Form) (d : Dialog)
    → truthy d.settings.controller_interface ≡ some interface
    → truthy d.node_type ≡ some t
    → d.node_form_group ≡ some f
    → update_available d ≡ update_for t interface f d
unfolding update_available update_when
update_available-done t interface f d hi ht hf =
    ap (λ o. update_when o (truthy d.node_type) d.node_form_group d) hi
    ∙ (ap (λ o. update_when (some interface) o d.node_form_group d) ht
        ∙ ap (λ o. update_when (some interface) (some t) o d) hf)

update_for-offers :
    (t interface : Text) (f : Form) (d : Dialog) (ip : Text)
    → is_among (update_for t interface f d).available_ips ip ≡ (
        is_among (push_loop (up_to_last_dot interface) (offset t) (number_of_addrs t)) ip
        && not (is_among d.validation_ips ip))
unfolding update_for
update_for-offers t interface f d ip = is_among-keep (λ a. not (is_among d.validation_ips a)) _ ip

free_of : (a b c : Bool) → a ≡ (b && not c) → a ≡ true → (b ≡ true) × (c ≡ false)
free_of a true true e h = cc
free_of a true false e h = (refl, refl)
free_of a false c e h = cc

free_in : (a b c : Bool) → a ≡ (b && not c) → b ≡ true → c ≡ false → a ≡ true
free_in a true true e h k = cc
free_in a true false e h k = e
free_in a false c e h k = cc

-- When the addresses in use come, and there is a form, a type of node and an interface of the
-- controller: an address is offered exactly if it is one of the range that the type has on the
-- interface's subnet, and neither a node of the page has it, nor a service of Kubernetes, nor a machine
-- that the answer names; and the offers are shown.
pub replied_get_used_ip_addresses-Offers :
    (t interface : Text) (used : List Text) (f : Form) (d : Dialog) (ip : Text)
    → truthy d.settings.controller_interface ≡ some interface
    → truthy d.node_type ≡ some t
    → d.node_form_group ≡ some f
    → (is_among (replied_get_used_ip_addresses false (ok used) d).0.available_ips ip ≡ true
        ↔ IsInRange t interface ip × (is_taken d used ip ≡ false))
      × ((replied_get_used_ip_addresses false (ok used) d).0.wait_for_new_ips ≡ false)
unfolding replied_get_used_ip_addresses update_validation_refs validation_refs update_for
replied_get_used_ip_addresses-Offers t interface used f d ip hi ht hf =
    let range = push_loop (up_to_last_dot interface) (offset t) (number_of_addrs t) in
    let e : Dialog = validation_refs (record d { used_ips = used }) in
    let done = update_available-done t interface f e hi ht hf in
    let taken = validation_refs-taken (record d { used_ips = used }) ip in
    let offers : is_among (update_available e).available_ips ip
        ≡ (is_among range ip && not (is_taken d used ip)) =
      ap (λ q. is_among q.available_ips ip) done
      ∙ (update_for-offers t interface f e ip ∙ ap (λ b. is_among range ip && not b) taken) in
    let in_range = push_loop-pushes (up_to_last_dot interface) (offset t) (number_of_addrs t) ip in
    let all_in = push_loop-all (up_to_last_dot interface) (offset t) (number_of_addrs t) ip in
    (
      (
        (λ h.
            let both = free_of _ (is_among range ip) (is_taken d used ip) offers h in
            (in_range both.0, both.1)),
        λ h. free_in _ (is_among range ip) (is_taken d used ip) offers (all_in h.0) h.1,
      ),
      ap (λ q. q.wait_for_new_ips) done,
    )
