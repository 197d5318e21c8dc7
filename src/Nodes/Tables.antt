-- ===== src/Nodes/Tables.antt =====
-- The tables of nodes.
use hellogit.Common.{
  Bool, Bool-cases, inl, inr, not, ◌&&◌, ◌≡◌, refl, ap, ◌∙◌, List, [], ◌∷◌, map, keep, any,
  allocate, fresh, map-allocate, map-keep, any-map,
}
use hellogit.Nodes.Types.{Node, Page, is_type, is_iso}
use hellogit.Nodes.Handlers.{marked, update_nodes_data}

-- The nodes of the first table: those of the control plane and MIPs stand elsewhere.
abbrev pub is_listed : Node → Bool
is_listed n = not (is_type "MIP" n) && not (is_type "Control-Plane" n)

abbrev pub is_control_plane : Node → Bool
is_control_plane n = is_type "Control-Plane" n

keep_twice {ℓ} :
    {A : Type ℓ} (p q : A → Bool) (xs : List A)
    → keep q (keep p (keep q xs)) ≡ keep (λ x. p x && q x) xs
keep_twice p q [] = refl
keep_twice p q (x ∷ xs) = elim (Bool-cases (q x)) [
  | inl e ↦ elim (Bool-cases (p x)) [
    | inl e' ↦ rw (e, e', e) (ap (◌∷◌ x) (keep_twice p q xs))
    | inr e' ↦ rw (e, e') (keep_twice p q xs)
  ]
  | inr e ↦ elim (Bool-cases (p x)) [
    | inl e' ↦ rw (e, e') (keep_twice p q xs)
    | inr e' ↦ rw (e, e') (keep_twice p q xs)
  ]
]

-- When nodes come, from the server or over the websocket, the first table shows those that are
-- neither MIPs nor of the control plane, the second those of the control plane, each in their order
-- and marked by its jobs, and the download of the ISO is shown if one of all is an ISO's.
pub update_nodes_data_lem :
    (ns : List Node) (p : Page)
    → let q = update_nodes_data ns p in
      (map q.objects q.nodes ≡ keep is_listed (map marked ns))
      × (map q.objects q.setup_nodes ≡ keep is_control_plane (map marked ns))
      × (q.iso_sensor_detected ≡ any is_iso (map marked ns))
unfolding update_nodes_data
update_nodes_data_lem ns p =
    let o = allocate p.objects p.next (map marked ns) in
    let rs = fresh p.next (map marked ns) in
    let all = map-allocate p.objects p.next (map marked ns) in
    (
      ap (map o) (
            keep_twice (λ r. not (is_type "MIP" (o r))) (λ r. not (is_type "Control-Plane" (o r)))
              rs)
          ∙ map-keep o is_listed rs
          ∙ ap (keep is_listed) all,
      map-keep o is_control_plane rs ∙ ap (keep is_control_plane) all,
      any-map o is_iso rs ∙ ap (any is_iso) all,
    )
