-- ===== src/Agents/Refresh.antt =====
-- What a refresh does to the hosts of a list.
use hellogit.Common.{
  AreDistinct, map-for_each, for_each_elsewhere, ℕ, Bool-cases, inl, inr, true, ◌≡◌, ◌≢◌, refl, ◌∙◌,
  ap, Option, none, some, List, [], ◌∷◌, map, All, if◌then◌else◌,
}
use hellogit.Agents.Types.{Host, same}
use hellogit.Agents.Hosts.{updated, update_loop, update_ip_targets}

-- The first host of the name of another.
abbrev pub named_as : Host → List Host → Option Host
named_as h [] = none
named_as h (u ∷ us) = if same h.hostname u.hostname then some u else named_as h us

abbrev pub taking : Host → Option Host → Host
taking h none = h
taking h (some u) = record h { state = u.state; last_state_change = u.last_state_change }

abbrev pub refreshed_host : List Host → Host → Host
refreshed_host us h = taking h (named_as h us)

updated-refreshed : (us : List Host) (h : Host) → updated us h ≡ refreshed_host us h
unfolding updated
updated-refreshed [] h = refl
updated-refreshed (u ∷ us) h = elim (Bool-cases (same h.hostname u.hostname)) [
  | inl e ↦ rw e refl
  | inr e ↦ rw e (updated-refreshed us h)
]

map-updated :
    (us : List Host) (o : ℕ → Host) (rs : List ℕ)
    → map (λ r. updated us (o r)) rs ≡ map (λ r. refreshed_host us (o r)) rs
map-updated us o [] = refl
map-updated us o (r ∷ rs) =
    rw (updated-refreshed us (o r)) (ap (◌∷◌ (refreshed_host us (o r))) (map-updated us o rs))

-- A refresh of a list whose hosts are different objects takes, for each host, the state and the time
-- of the first host of the answer with its name, changes nothing else of it, and leaves a host whose
-- name the answer does not have. Every other host stays.
pub update_ip_targets_lem :
    (rs : List ℕ) (us : List Host) (o : ℕ → Host)
    → AreDistinct rs
    → let (o', finished) = update_ip_targets (some rs) (some us) o in
      (finished ≡ true)
      × (map o' rs ≡ map (λ r. refreshed_host us (o r)) rs)
      × ((r : ℕ) → All (λ s. r ≢ s) rs → o' r ≡ o r)
unfolding update_ip_targets update_loop
update_ip_targets_lem [] us o h = (refl, refl, λ r apart. refl)
update_ip_targets_lem (r ∷ rs) us o h = (
  refl,
  map-for_each (updated us) (r ∷ rs) o h ∙ map-updated us o (r ∷ rs),
  λ s apart. for_each_elsewhere (updated us) (r ∷ rs) o s apart,
)
