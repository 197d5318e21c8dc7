-- ===== src/Policy/Actions.antt =====
-- The public methods of PolicyManagementComponent that a user triggers, each dialog with the handler
-- of its `afterClosed`: a first argument of such a handler is what the dialog was opened with.
--
-- `at_most a b` says that SortingService's `naturalSort(a, b)`, a call of `localeCompare`, is not
-- positive.
use hellogit.Common.{
  ℕ, String, Bool, true, false, not, Option, none, some, List, [], ◌∷◌, ◌++◌, length, get_elem?,
  set_at, replicate, find_index, if◌then◌else◌, ◌==◌, ltb,
}
use hellogit.Common.Sort.{sort}
use hellogit.Policy.Types.{
  Rule, RuleSet, blank, Flags, Page, Outcome, request, type_error, get_rule_sets, get_rules,
  get_jobs, sync_rule_sets, check_suricata, create_rule_set, update_rule_set, toggle_rule,
  delete_rule, delete_rule_set, upload_rule_file, snackbar, write_array, write_object, assign_rules,
}

-- web/frontend/src/app/services/sorting.service.ts
abbrev pub rule_alphanum : (String → String → Bool) → Rule → Rule → Bool
rule_alphanum at_most a b = at_most a.rule_name b.rule_name

abbrev pub rule_set_alphanum : (String → String → Bool) → RuleSet → RuleSet → Bool
rule_set_alphanum at_most a b = at_most a.name b.name

-- `get_rule_set_index_`
abbrev pub get_rule_set_index : ℕ → Page → Option ℕ
get_rule_set_index id p = find_index (λ r. (p.objects r).id == id) p.rule_sets

-- `get_rule_index_`
abbrev pub get_rule_index : ℕ → Page → Option ℕ
get_rule_index id p = find_index (λ (r : Rule). r.id == id) (p.arrays p.rules)

-- `flags[index]`, where `undefined` reads as `false`
abbrev pub flag_at : Flags → Option ℕ → Bool
flag_at f none = f.at_minus_one
flag_at f (some i) = elim (get_elem? f.cells i) [ none ↦ false | some b ↦ b ]

-- `flags[index] = !flags[index]`
abbrev pub flip_at : Flags → Option ℕ → Flags
flip_at f none = record f { at_minus_one = not f.at_minus_one }
flip_at f (some i) = record f { cells = set_at f.cells (some i) (not (flag_at f (some i))) }

-- `new Array(n).fill(false)`
abbrev pub all_hidden : ℕ → Flags
all_hidden n = record { cells = replicate n false; at_minus_one = false }

-- `for (const ruleSet of rule_sets) ruleSet.rules = null`
unfoldable pub clear_rules : List ℕ → Page → Page
clear_rules [] p = p
clear_rules (r ∷ rs) p = clear_rules rs (assign_rules r none p)

-- The constructor: two tables with no rows.
abbrev pub constructed : Page
constructed = record {
  objects = λ _. blank;
  arrays = λ _. [];
  next = 1;
  rule_sets = [];
  rules = 0;
  rules_visible_ = all_hidden 0;
  job_status = false;
  rulesetchange = false;
}

-- `ngOnInit`: the subscriptions, with `check_rule_sync_status_` first.
unfoldable pub ng_on_init : Page → Outcome
ng_on_init p = (
  record p { job_status = true },
  request get_jobs ∷ request get_rule_sets ∷ request check_suricata ∷ [],
)

unfoldable pub get_rules_clicked : ℕ → Page → Outcome
unfolding clear_rules
get_rules_clicked rule_set p =
    let index = get_rule_set_index (p.objects rule_set).id p in
    let visible = flag_at p.rules_visible_ index in
    let hidden = all_hidden (length p.rule_sets) in
    let flags = if visible then hidden else flip_at hidden index in
    (
      record (clear_rules p.rule_sets p) { rules_visible_ = flags },
      request (get_rules rule_set index) ∷ [],
    )

unfoldable pub rules_visible : ℕ → Page → Bool
rules_visible rule_set p = flag_at p.rules_visible_ (get_rule_set_index (p.objects rule_set).id p)

-- `edit_rule`, the dialog closed
unfoldable pub edit_rule_closed : Rule → Option Rule → Page → Outcome
edit_rule_closed rule none p = (p, [])
edit_rule_closed rule (some response) p = (
  write_array p.rules (set_at (p.arrays p.rules) (get_rule_index rule.id p) response) p,
  request get_rule_sets ∷ [],
)

-- The rule set object is changed before the request is sent.
unfoldable pub enable_rule_set : ℕ → Page → Outcome
enable_rule_set rule_set p =
    let o = p.objects rule_set in
    let enabled = not o.is_enabled in
    (
      write_object rule_set (record o { details = record o.details { is_enabled = enabled } }) p,
      request (update_rule_set o.id enabled true) ∷ [],
    )

unfoldable pub enable_rule : Rule → ℕ → Page → Outcome
enable_rule rule rule_set p = (p, request (toggle_rule rule rule_set) ∷ [])

-- `delete_rule_confirm_dialog`, the dialog closed; `confirmed` is `response === 'Confirm'`. The index
-- is looked up in the rules of the rule set, which throws where they are `null`.
unfoldable pub delete_rule_closed : Rule → ℕ → Bool → Page → Outcome
delete_rule_closed rule rule_set false p = (p, [])
delete_rule_closed rule rule_set true p = elim (p.objects rule_set).rules [
  | none ↦ (p, type_error ∷ [])
  | some a ↦
      (p, request (delete_rule rule (find_index (λ (r : Rule). r.id == rule.id) (p.arrays a))) ∷ [])
]

-- `delete_rule_set_confirm_dialog`, the dialog closed
unfoldable pub delete_rule_set_closed : ℕ → Bool → Page → Outcome
delete_rule_set_closed rule_set confirmed p =
    (p, if confirmed then request (delete_rule_set (p.objects rule_set).id) ∷ [] else [])

-- `edit_rule_set`, the dialog closed with a form: whether it is valid, and the `_id` and `isEnabled`
-- of its value.
unfoldable pub edit_rule_set_closed : Option (Bool × ℕ × Bool) → Page → Outcome
edit_rule_set_closed none p = (p, [])
edit_rule_set_closed (some (valid, id, enabled)) p =
    (p, if valid then request (update_rule_set id enabled false) ∷ [] else [])

-- `add_rule`, the dialog closed: `push` and `sort` both change the array in place.
unfoldable pub add_rule_closed : (String → String → Bool) → Option Rule → Page → Outcome
add_rule_closed at_most none p = (p, [])
add_rule_closed at_most (some response) p =
    (write_array p.rules (sort (rule_alphanum at_most) (p.arrays p.rules ++ response ∷ [])) p, [])

unfoldable pub does_rule_set_contain_rules : Page → Bool
does_rule_set_contain_rules p = ltb 0 (length (p.arrays p.rules))

unfoldable pub rule_sync : Page → Outcome
rule_sync p = (record p { job_status = true; rulesetchange = true }, request sync_rule_sets ∷ [])

-- `add_rule_set`, the dialog closed with a form that is valid or not
unfoldable pub add_rule_set_closed : Option Bool → Page → Outcome
add_rule_set_closed none p = (p, [])
add_rule_set_closed (some valid) p = (p, if valid then request create_rule_set ∷ [] else [])

-- `upload_rules_file`, the dialog closed: `none` where the response or its form is missing.
unfoldable pub upload_rules_file_closed : Option Bool → Page → Outcome
upload_rules_file_closed none p = (p, [])
upload_rules_file_closed (some valid) p = (
  p,
  if valid
      then snackbar "Uploading rules file. Please wait for a confirmation message."
        ∷ request upload_rule_file
        ∷ []
      else [],
)
