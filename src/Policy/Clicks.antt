-- ===== src/Policy/Clicks.antt =====
-- Expanding and collapsing a rule set: `get_rules` against `rules_visible`.
use hellogit.Common.{
  ℕ, zero, suc, ◌<◌, ◌≡◌, refl, ◌∙◌, ap, Bool, true, false, not, none, some, List, [], ◌∷◌, length,
  find_index, arith, ◌==◌, inl, inr, Bool-cases, fun_ext,
}
use hellogit.Policy.Types.{Page, assign_rules}
use hellogit.Policy.Actions.{
  all_hidden, flip_at, flag_at, clear_rules, get_rules_clicked, rules_visible, get_rule_set_index,
}

clear_rules-details :
    (rs : List ℕ) (p : Page) (r : ℕ)
    → ((clear_rules rs p).objects r).details ≡ (p.objects r).details
unfolding clear_rules
clear_rules-details [] p r = refl
clear_rules-details (s ∷ rs) p r = ground (arith, clear_rules-details rs (assign_rules s none p) r)

clear_rules-rule_sets : (rs : List ℕ) (p : Page) → (clear_rules rs p).rule_sets ≡ p.rule_sets
unfolding clear_rules
clear_rules-rule_sets [] p = refl
clear_rules-rule_sets (s ∷ rs) p = clear_rules-rule_sets rs (assign_rules s none p)

-- The click changes no index.
index-clicked :
    (id r : ℕ) (p : Page)
    → get_rule_set_index id (get_rules_clicked r p).0 ≡ get_rule_set_index id p
unfolding get_rules_clicked
index-clicked id r p = rw (clear_rules-rule_sets p.rule_sets p) (
    ap (λ f. find_index f p.rule_sets)
      (fun_ext (λ s. ap (λ d. d.id == id) (clear_rules-details p.rule_sets p s))))

find_index-lt {ℓ} :
    {A : Type ℓ} (f : A → Bool) (xs : List A) (i : ℕ) → find_index f xs ≡ some i → i < length xs
find_index-lt f [] i h = cc
find_index-lt f (x ∷ xs) zero h = omega arith
find_index-lt f (x ∷ xs) (suc i) h = ground (arith, find_index-lt f xs i)

flag_at-hidden : (n i : ℕ) → flag_at (all_hidden n) (some i) ≡ false
flag_at-hidden zero i = refl
flag_at-hidden (suc n) zero = refl
flag_at-hidden (suc n) (suc i) = flag_at-hidden n i

flag_at-flip : (n i : ℕ) → i < n → flag_at (flip_at (all_hidden n) (some i)) (some i) ≡ true
flag_at-flip zero i h = absurd (omega arith)
flag_at-flip (suc n) zero h = refl
flag_at-flip (suc n) (suc i) h = flag_at-flip n i (omega arith)

rules_visible-clicked_at :
    (r s j : ℕ) (p : Page)
    → get_rule_set_index (p.objects s).details.id p ≡ some j
    → rules_visible s (get_rules_clicked r p).0
      ≡ flag_at (get_rules_clicked r p).0.rules_visible_ (some j)
unfolding rules_visible get_rules_clicked
rules_visible-clicked_at r s j p h =
    let q = (get_rules_clicked r p).0 in
    let e = ap (λ d. get_rule_set_index d.id q) (clear_rules-details p.rule_sets p s) in
    ap (flag_at q.rules_visible_) (e ∙ index-clicked (p.objects s).details.id r p ∙ h)

-- A click on a rule set of the table shows its rules if they were hidden, and hides them if they
-- were shown.
pub rules_visible-clicked :
    (r i : ℕ) (p : Page)
    → get_rule_set_index (p.objects r).details.id p ≡ some i
    → rules_visible r (get_rules_clicked r p).0 ≡ not (rules_visible r p)
unfolding rules_visible get_rules_clicked
rules_visible-clicked r i p hi =
    let n = length p.rule_sets in
    let lt = find_index-lt _ p.rule_sets i hi in
    elim (Bool-cases (flag_at p.rules_visible_ (some i))) [
      | inl shown ↦ rules_visible-clicked_at r r i p hi ∙ rw (hi, shown) (flag_at-hidden n i)
      | inr hidden ↦ rules_visible-clicked_at r r i p hi ∙ rw (hi, hidden) (flag_at-flip n i lt)
    ]
