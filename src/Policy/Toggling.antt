-- ===== src/Policy/Toggling.antt =====
-- Switching rules and rule sets on and off.
use hellogit.Common.{
  ℕ, zero, suc, ◌≡◌, refl, ◌≢◌, String, true, not, Option, none, some, List, [], ◌∷◌, arith, set,
  set_at, get_elem?,
}
use hellogit.Policy.Types.{
  Rule, RuleSetData, Page, Reply, ok, error_message_class, http_error, request, snackbar,
  update_rule_set,
}
use hellogit.Policy.Actions.{get_rule_index, enable_rule_set}
use hellogit.Policy.Replies.{replied_toggle_rule, replied_update_rule_set}

-- Writing what is there changes nothing.
set-same : (xs : List ℕ) (i : ℕ) (x : ℕ) → get_elem? xs i ≡ some x → set xs i x ≡ xs
set-same [] i x h = refl
set-same (y ∷ ys) zero x h = ground arith
set-same (y ∷ ys) (suc i) x h = ground (arith, set-same ys i x)

-- When a rule of the rule set that the table shows has been toggled, its row and the rule set's own
-- list have the response in its place, the rule set is marked dirty, and all other rule sets, and
-- the rule set's id and name, stay as they are.
pub toggled_lem :
    (rule response : Rule) (rule_set other : ℕ) (p : Page)
    → (p.objects rule_set).rules ≡ some p.rules
    → other ≢ rule_set
    → let q = (replied_toggle_rule rule rule_set (ok (some response)) p).0 in
      (q.arrays q.rules ≡ set_at (p.arrays p.rules) (get_rule_index rule.id p) response)
      × ((q.objects rule_set).rules ≡ some q.rules)
      × ((q.objects rule_set).details ≡ record (p.objects rule_set).details { state = "Dirty" })
      × (q.objects other ≡ p.objects other)
unfolding replied_toggle_rule
toggled_lem rule response rule_set other p shared ne =
    (ground arith, ground arith, ground arith, ground arith)

-- The answers that do not say that a rule set was updated.
pub data IsRefusal : Reply (Option RuleSetData) → Type 0 where
  not_updated : IsRefusal (ok none)
  message : (m : String) → IsRefusal (error_message_class m)
  no_answer : IsRefusal http_error

-- Switching a rule set on or off changes its row before the request is sent, and a refusal does not
-- change it back: the row then says the opposite of what it said, and nothing is asked of the server.
pub enable_rule_set-refused :
    (rule_set : ℕ) (p : Page) (reply : Reply (Option RuleSetData))
    → IsRefusal reply
    → let o = p.objects rule_set in
      let q = (enable_rule_set rule_set p).0 in
      ((enable_rule_set rule_set p).1
        ≡ request (update_rule_set o.details.id (not o.details.is_enabled) true) ∷ [])
      × (((replied_update_rule_set o.details.id (not o.details.is_enabled) true reply q).0.objects
            rule_set).details.is_enabled
          ≡ not o.details.is_enabled)
      × ((m : String) × (replied_update_rule_set o.details.id
              (not o.details.is_enabled)
              true
              reply
              q
            ≡ (q, snackbar m ∷ [])))
unfolding enable_rule_set replied_update_rule_set
enable_rule_set-refused r p reply not_updated = (refl, ground arith, (_, refl))
enable_rule_set-refused r p reply (message m) = (refl, ground arith, (_, refl))
enable_rule_set-refused r p reply no_answer = (refl, ground arith, (_, refl))
