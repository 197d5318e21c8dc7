-- ===== src/Workflow/Names.antt =====
-- The names of deployments that an uninstall is sent with.
use mathlib.Core.List.{map-map}
use hellogit.Common.{
  Text, codes, text_eq, ℕ, Bool-cases, inl, inr, false, ◌≡◌, refl, sym, fun_ext, ◌∙◌, ap, Option,
  none, some, List, [], ◌∷◌, map, keep, AreDistinct, for_each, map-for_each,
}
use hellogit.Workflow.Types.{
  Status, Node, Chart, ProcessForm, Page, Target, uninstall, server_any_value,
}
use hellogit.Workflow.Handlers.{
  is_for, deployment_for, set_deployment_name, run_uninstall, run_chart_action, targets,
}

abbrev pub last : List Status → Option Status
last [] = none
last (s ∷ []) = some s
last (s ∷ t ∷ ts) = last (t ∷ ts)

abbrev pub naming : Node → Option Status → Node
naming n none = n
naming n (some s) = record n { deployment_name = some s.status_deployment }

-- The statuses that are for a node.
abbrev pub statuses_of : List Status → Node → List Status
statuses_of ss n = keep (λ (s : Status). is_for n.hostname s.status_host) ss

last-some : (s : Status) (ss : List Status) → (t : Status) × (last (s ∷ ss) ≡ some t)
last-some s [] = (s, refl)
last-some s (t ∷ ts) = last-some t ts

over :
    (n : Node) (s : Status) (ss : List Status)
    → naming (naming n (some s)) (last ss) ≡ naming n (last (s ∷ ss))
over n s [] = refl
over n s (t ∷ ts) = let (u, e) = last-some t ts in rw e refl

deployment_for-last :
    (ss : List Status) (n : Node) → deployment_for ss n ≡ naming n (last (statuses_of ss n))
unfolding deployment_for
deployment_for-last [] n = refl
deployment_for-last (s ∷ ss) n = elim (Bool-cases (is_for n.hostname s.status_host)) [
  | inl e ↦ rw e (deployment_for-last ss (naming n (some s)) ∙ over n s (statuses_of ss n))
  | inr e ↦ rw e (deployment_for-last ss n)
]

abbrev pub target_of : Node → Target
target_of n = record { target_host = n.hostname; target_deployment = n.deployment_name }

targets_lem :
    (ss : List Status) (rs : List ℕ) (o : ℕ → Node)
    → AreDistinct rs
    → targets (set_deployment_name ss rs o) rs
      ≡ map (λ r. target_of (naming (o r) (last (statuses_of ss (o r))))) rs
unfolding set_deployment_name
targets_lem ss rs o h =
    let named : ◌≡◌ {A = ℕ → Node} (λ r. deployment_for ss (o r))
        (λ r. naming (o r) (last (statuses_of ss (o r)))) =
      fun_ext (λ r. deployment_for-last ss (o r)) in
    sym (map-map target_of (for_each (deployment_for ss) rs o) rs)
    ∙ ap (map target_of) (map-for_each (deployment_for ss) rs o h ∙ ap (λ f. map f rs) named)
    ∙ map-map target_of (λ r. naming (o r) (last (statuses_of ss (o r)))) rs

-- For a chart that is not for any server, an uninstall of different nodes is sent with the names of
-- their hosts, each with the deployment of the last status that is for its host or for none, or with
-- the one it had if there is no such status.
pub run_chart_action-targets :
    (c : Chart) (ss : List Status) (nodes : List ℕ) (f : ProcessForm) (values : List (Text × Text))
    (p : Page)
    → f.selected_process ≡ codes "uninstall"
    → text_eq c.node_affinity server_any_value ≡ false
    → AreDistinct f.selected_nodes
    → (run_chart_action c ss nodes f values p).1
      ≡ uninstall c.chart_id (
          map
            (λ r. target_of (naming (p.objects r) (last (statuses_of ss (p.objects r)))))
            f.selected_nodes)
        ∷ []
unfolding run_chart_action run_uninstall
run_chart_action-targets c ss nodes f values p chosen other apart =
    rw (chosen, other)
      (ap (λ ts. uninstall c.chart_id ts ∷ []) (targets_lem ss f.selected_nodes p.objects apart))
