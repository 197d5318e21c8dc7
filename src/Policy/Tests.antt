-- ===== src/Policy/Tests.antt =====
-- A page with two rule sets, its runs, and the theorems at it.
use Prim.Native.String.{len}
use mathlib.Core.List.{Perm, Nodup, Mem, Nodup-cons, Nodup-nil, mem-cons, not-mem-nil, foldl}
use mathlib.Core.Logic.Or
use hellogit.Common.{
  ℕ, ◌<◌, ◌≡◌, refl, ◌⊎◌, String, Bool, true, false, not, none, some, List, [], ◌∷◌, arith, leb,
  keep, any, ◌≢◌, ◌&&◌,
}
use hellogit.Common.Sort.{IsSorted}
use hellogit.Policy.Types.{
  new_rule_sets, new_rule_set, Rule, RuleSetData, Page, ok, request, delete_rule, blank,
}
use hellogit.Policy.Actions.{
  constructed, rule_alphanum, get_rule_index, get_rule_set_index, delete_rule_closed, ng_on_init,
  get_rules_clicked, clear_rules, rule_sync, rules_visible,
}
use hellogit.Policy.Replies.{replied_get_rules, replied_get_rule_sets, replied_delete_rule}
use hellogit.Policy.Events
use hellogit.Policy.Visible.{run-AtMostOneVisible}
use hellogit.Policy.Deletion.{Mem-tail, ids, has_id, deleted, delete-shared, delete-stale}
use hellogit.Policy.Loading.{replied_get_rules_lem}
use hellogit.Policy.Sync.{running_after, run-job_status}

-- An order of names: by length.
abbrev shorter : String → String → Bool
shorter a b = leb (len a) (len b)

shorter_total : (a b : String) → (shorter a b ≡ true) ⊎ (shorter b a ≡ true)
shorter_total a b = ground arith

shorter_trans : (a b c : String) → shorter a b ≡ true → shorter b c ≡ true → shorter a c ≡ true
shorter_trans a b c h k = ground arith

abbrev rule : ℕ → String → Rule
rule n name = record {
  id = n;
  rule_name = name;
  rule = "alert";
  created_date = "";
  last_modified_date = "";
  is_enabled = true;
  by_pass_validation = false;
  rule_set_id = 1;
}

abbrev data_of : ℕ → String → RuleSetData
data_of n name = record {
  details = record blank.details { id = n; name = name };
  sensors = none;
  sensor_states = none;
  rules = none;
}

abbrev rules : List Rule
rules = rule 3 "wide" ∷ rule 1 "a" ∷ rule 2 "bb" ∷ []

-- The page after both rule sets have come; their objects stand at 2 and at 4.
abbrev listed : Page
listed =
    (replied_get_rule_sets shorter (ok (data_of 7 "suricata" ∷ data_of 8 "zeek" ∷ []))
      constructed).0

-- The page after the rules of the second have come, in the table's order 1, 2, 3.
abbrev shown : Page
shown = (replied_get_rules shorter 4 (some 0) (ok rules) listed).0

rows-listed : listed.rule_sets ≡ 4 ∷ 2 ∷ []
unfolding replied_get_rule_sets
rows-listed = refl

table-shown : ids (shown.arrays shown.rules) ≡ 1 ∷ 2 ∷ 3 ∷ []
unfolding replied_get_rules replied_get_rule_sets
table-shown = refl

shown-shared : (shown.objects 4).rules ≡ some shown.rules
unfolding replied_get_rules replied_get_rule_sets
shown-shared = refl

shown-index_one : get_rule_index 1 shown ≡ some 0
unfolding replied_get_rules replied_get_rule_sets
shown-index_one = refl

shown-index_two : get_rule_index 2 shown ≡ some 1
unfolding replied_get_rules replied_get_rule_sets
shown-index_two = refl

shown-used : shown.rules < shown.next
unfolding replied_get_rules replied_get_rule_sets
shown-used = omega arith

-- Rule 1 is deleted, then rule 2: the table keeps rule 2 and loses rule 3.
table-stale :
    let q = deleted (some 1) "ok" (deleted (some 0) "ok" shown) in ids (q.arrays q.rules) ≡ 2 ∷ []
unfolding replied_get_rules replied_get_rule_sets replied_delete_rule
table-stale = refl

ids-Nodup : Nodup (ids (shown.arrays shown.rules))
ids-Nodup = rw table-shown (
    Nodup-cons.1 (
      λ m. not-mem-nil (Mem-tail 1 3 [] (Mem-tail 1 2 _ m (omega arith)) (omega arith)),
      Nodup-cons.1 (
        λ m. not-mem-nil (Mem-tail 2 3 [] m (omega arith)),
        Nodup-cons.1 (not-mem-nil, Nodup-nil),
      ),
    ))

ids-mem : Mem 2 (ids (shown.arrays shown.rules))
ids-mem = rw table-shown (mem-cons.1 (Or.inr (mem-cons.1 (Or.inl refl))))

delete-shared_example :
    (delete_rule_closed (rule 2 "bb") 4 true shown
      ≡ (shown, request (delete_rule (rule 2 "bb") (get_rule_index 2 shown)) ∷ []))
    × ((deleted (get_rule_index 2 shown) "ok" shown).arrays
          (deleted (get_rule_index 2 shown) "ok" shown).rules
        ≡ keep (λ x. not (has_id 2 x)) (shown.arrays shown.rules))
delete-shared_example = delete-shared shown 4 shown-shared (rule 2 "bb") "ok" ids-Nodup ids-mem

delete-stale_example :
    (delete_rule_closed (rule 2 "bb") 4 true (deleted (some 0) "ok" shown)
      ≡ (deleted (some 0) "ok" shown, request (delete_rule (rule 2 "bb") (some 1)) ∷ []))
    × (any (has_id 2) (
          (deleted (some 1) "ok" (deleted (some 0) "ok" shown)).arrays
            (deleted (some 1) "ok" (deleted (some 0) "ok" shown)).rules)
        ≡ true)
delete-stale_example =
    delete-stale shown 4 shown-shared (rule 1 "a") (rule 2 "bb") 0 1 "ok" "ok" shown-used
      shown-index_one shown-index_two (omega arith)

replied_get_rules_lem_example :
    let q = (replied_get_rules shorter 4 (some 0) (ok rules) listed).0 in
    ((q.objects 4).rules ≡ some q.rules)
    × (q.rules < q.next)
    × Perm (q.arrays q.rules) rules
    × IsSorted (rule_alphanum shorter) (q.arrays q.rules)
    × ((q.objects 4).details ≡ (listed.objects 4).details)
    × (q.rule_sets ≡ listed.rule_sets)
replied_get_rules_lem_example =
    replied_get_rules_lem shorter shorter_total shorter_trans 4 (some 0) rules listed

abbrev answers : List RuleSetData
answers = data_of 7 "suricata" ∷ data_of 8 "zeek" ∷ []

abbrev session : List Events.Event
session =
    Events.init
    ∷ Events.reply_get_rule_sets (ok answers)
    ∷ Events.click_get_rules 4
    ∷ Events.click_get_rules 2
    ∷ Events.sync
    ∷ []

abbrev after_session : Page
after_session = (Events.run shorter session constructed).0

session_index : get_rule_set_index (after_session.objects 2).details.id after_session ≡ some 1
unfolding Events.run Events.handle ng_on_init replied_get_rule_sets get_rules_clicked clear_rules
    rule_sync new_rule_sets new_rule_set
session_index = refl

session_differs : (after_session.objects 2).details.id ≢ (after_session.objects 4).details.id
unfolding Events.run Events.handle ng_on_init replied_get_rule_sets get_rules_clicked clear_rules
    rule_sync new_rule_sets new_rule_set
session_differs h = omega (arith, h)

session_visible : rules_visible 2 after_session ≡ true
unfolding Events.run Events.handle ng_on_init replied_get_rule_sets get_rules_clicked clear_rules
    rule_sync new_rule_sets new_rule_set rules_visible
session_visible = refl

run-AtMostOneVisible_example :
    ((rules_visible 2 after_session && rules_visible 4 after_session) ≡ false)
    × (rules_visible 2 (get_rules_clicked 2 after_session).0 ≡ not (rules_visible 2 after_session))
run-AtMostOneVisible_example =
    run-AtMostOneVisible shorter session 2 4 1 session_index session_differs

run-job_status_example :
    (Events.run shorter session constructed).0.job_status
    ≡ foldl (λ b e. running_after e b) false session
run-job_status_example = run-job_status shorter session constructed

listed-index_four : get_rule_set_index (listed.objects 4).details.id listed ≡ some 0
unfolding replied_get_rule_sets
listed-index_four = refl

listed-index_two : get_rule_set_index (listed.objects 2).details.id listed ≡ some 1
unfolding replied_get_rule_sets
listed-index_two = refl
