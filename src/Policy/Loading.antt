-- ===== src/Policy/Loading.antt =====
-- What the answers to `get_rules` and `get_rule_sets` make of the tables.
use mathlib.Core.List.{Perm}
use mathlib.Core.List.Perm
use hellogit.Common.{
  ℕ, suc, ◌≤◌, ◌<◌, ◌≡◌, refl, ◌⊎◌, String, Bool, true, false, Option, some, List, [], ◌∷◌, map,
  arith, update_self, length,
}
use hellogit.Common.Sort.{sort-perm, sort-IsSorted, IsSorted}
use hellogit.Policy.Types.{Rule, RuleSetData, Page, ok, new_rule_set, new_rule_sets}
use hellogit.Policy.Actions.{rule_alphanum, rule_set_alphanum, all_hidden}
use hellogit.Policy.Replies.{replied_get_rules, replied_get_rule_sets}

new_rule_sets-next : (ds : List RuleSetData) (p : Page) → p.next ≤ (new_rule_sets ds p).0.next
unfolding new_rule_sets new_rule_set
new_rule_sets-next [] p = omega arith
new_rule_sets-next (d ∷ ds) p = omega (arith, new_rule_sets-next ds (new_rule_set d p).0)

-- Construction leaves the objects that are there alone.
new_rule_sets-objects :
    (ds : List RuleSetData) (p : Page) (r : ℕ)
    → r < p.next
    → (new_rule_sets ds p).0.objects r ≡ p.objects r
unfolding new_rule_sets new_rule_set
new_rule_sets-objects [] p r h = refl
new_rule_sets-objects (d ∷ ds) p r h =
    ground (arith, new_rule_sets-objects ds (new_rule_set d p).0 r)

new_rule_sets-details :
    (ds : List RuleSetData) (p : Page)
    → let (q, rows) = new_rule_sets ds p in
      map (λ r. (q.objects r).details) rows ≡ map (λ (d : RuleSetData). d.details) ds
unfolding new_rule_sets new_rule_set
new_rule_sets-details [] p = refl
new_rule_sets-details (d ∷ ds) p =
    let q = (new_rule_set d p).0 in
    ground (arith, new_rule_sets-details ds q, new_rule_sets-objects ds q (suc p.next))

new_rule_sets-table :
    (ds : List RuleSetData) (p : Page)
    → p.rules < p.next
    → (new_rule_sets ds p).0.arrays (new_rule_sets ds p).0.rules ≡ p.arrays p.rules
unfolding new_rule_sets new_rule_set
new_rule_sets-table [] p h = refl
new_rule_sets-table (d ∷ ds) p h = ground (arith, new_rule_sets-table ds (new_rule_set d p).0)

-- What the page relies on of `localeCompare`.
module _ (at_most : String → String → Bool)
    (total : (x y : String) → (at_most x y ≡ true) ⊎ (at_most y x ≡ true))
    (trans : (x y z : String) → at_most x y ≡ true → at_most y z ≡ true → at_most x z ≡ true) where
  -- When the rules of a rule set come, the table and the rule set share one array that is in use,
  -- it holds the rules of the response in the order of their names, and the rows and what they
  -- say of the rule set stay.
  pub replied_get_rules_lem :
      (rule_set : ℕ) (index : Option ℕ) (response : List Rule) (p : Page)
      → let q = (replied_get_rules at_most rule_set index (ok response) p).0 in
        ((q.objects rule_set).rules ≡ some q.rules)
        × (q.rules < q.next)
        × Perm (q.arrays q.rules) response
        × IsSorted (rule_alphanum at_most) (q.arrays q.rules)
        × ((q.objects rule_set).details ≡ (p.objects rule_set).details)
        × (q.rule_sets ≡ p.rule_sets)
  unfolding replied_get_rules
  replied_get_rules_lem rule_set index response p = (
    ground arith,
    omega arith,
    rw (update_self, update_self) (sort-perm (rule_alphanum at_most) response),
    rw (update_self, update_self)
        (sort-IsSorted (rule_alphanum at_most) (λ a b. total a.rule_name b.rule_name)
          (λ a b c. trans a.rule_name b.rule_name c.rule_name) response),
    ground arith,
    refl,
  )

  -- When the rule sets come, the rows are those of the response in the order of their names, none
  -- of them shows its rules, the table of rules stays as it is, and the page no longer waits for a
  -- change.
  pub replied_get_rule_sets_lem :
      (response : List RuleSetData) (p : Page)
      → p.rules < p.next
      → let q = (replied_get_rule_sets at_most (ok response) p).0 in
        Perm
          (map (λ r. (q.objects r).details) q.rule_sets)
          (map (λ (d : RuleSetData). d.details) response)
        × IsSorted (λ a b. rule_set_alphanum at_most (q.objects a) (q.objects b)) q.rule_sets
        × (q.rules_visible_ ≡ all_hidden (length response))
        × (q.arrays q.rules ≡ p.arrays p.rules)
        × (q.rulesetchange ≡ false)
  unfolding replied_get_rule_sets
  replied_get_rule_sets_lem response p h =
      let q = (new_rule_sets response p).0 in
      let le = λ (a b : ℕ). rule_set_alphanum at_most (q.objects a) (q.objects b) in
      (
        rw (← new_rule_sets-details response p)
            (Perm.map (λ r. (q.objects r).details) (sort-perm le (new_rule_sets response p).1)),
        sort-IsSorted le (λ a b. total (q.objects a).details.name (q.objects b).details.name)
            (λ a b c.
              trans (q.objects a).details.name (q.objects b).details.name
                (q.objects c).details.name)
            (new_rule_sets response p).1,
        refl,
        new_rule_sets-table response p h,
        refl,
      )
