-- ===== src/Agents/Hosts.antt =====
-- What agent-builder-chooser.component.ts computes over hosts. `toLowerCase` is a parameter.
use hellogit.Common.{
  Text, text_eq, ℕ, suc, ◌==◌, Bool, true, false, Option, none, some, List, [], ◌∷◌, map,
  if◌then◌else◌, find_index, for_each,
}
use hellogit.Agents.Types.{Host, same}

-- Two hosts that have names have the same one, whatever the case.
abbrev pub same_lower : (Text → Text) → Option Text → Option Text → Bool
same_lower lower none _ = false
same_lower lower (some s) none = false
same_lower lower (some s) (some t) = text_eq (lower s) (lower t)

abbrev pub same_name : (Text → Text) → Host → Host → Bool
same_name lower h host = same_lower lower h.hostname host.hostname

abbrev pub is_at : Option ℕ → ℕ → Bool
is_at none i = false
is_at (some j) i = j == i

-- `is_host_index_zero_`
unfoldable pub is_host_index_zero : (Text → Text) → Host → ℕ → List Host → Bool
is_host_index_zero lower host host_index hosts =
    is_at (find_index (λ h. same_name lower h host) hosts) host_index

-- The `filter` by it: the objects from an index on, which the hosts of the whole array are read for.
unfoldable pub filter_first : (Text → Text) → (ℕ → Host) → List Host → ℕ → List ℕ → List ℕ
unfolding is_host_index_zero
filter_first lower o hosts i [] = []
filter_first lower o hosts i (r ∷ rs) =
    let rest = filter_first lower o hosts (suc i) rs in
    if is_host_index_zero lower (o r) i hosts then r ∷ rest else rest

-- `targets.concat(response_targets).filter(this.is_host_index_zero_)`
unfoldable pub distinct : (Text → Text) → (ℕ → Host) → List ℕ → List ℕ
unfolding filter_first
distinct lower o all = filter_first lower o (map o all) 0 all

-- The inner loop of `update_ip_targets_list_targets_`, which breaks at the first host of the name.
unfoldable pub updated : List Host → Host → Host
updated [] target = target
updated (u ∷ us) target =
    if same target.hostname u.hostname
    then record target { state = u.state; last_state_change = u.last_state_change }
    else updated us target

unfoldable pub update_loop : List Host → List ℕ → (ℕ → Host) → ℕ → Host
unfolding updated for_each
update_loop us rs o = for_each (updated us) rs o

-- `update_ip_targets_list_targets_`, and whether it ends without an exception: an array that is
-- undefined cannot be looped over.
unfoldable pub update_ip_targets :
    Option (List ℕ) → Option (List Host) → (ℕ → Host) → (ℕ → Host) × Bool
unfolding update_loop
update_ip_targets none us o = (o, false)
update_ip_targets (some []) us o = (o, true)
update_ip_targets (some (r ∷ rs)) none o = (o, false)
update_ip_targets (some (r ∷ rs)) (some us) o = (update_loop us (r ∷ rs) o, true)
