-- ===== src/Policy/Replies.antt =====
-- The subscribers of PolicyManagementComponent's REST calls and of its websocket. A subscriber's
-- first arguments are what it closes over.
use hellogit.Common.{
  ℕ, String, Bool, true, false, not, Option, none, some, List, [], ◌∷◌, ◌++◌, length, set_at,
  splice_one, keep, every, if◌then◌else◌, ◌==◌,
}
use Prim.Native.String
use text.Mathlib.Text.{◌==◌ as str_eq, find?}
use hellogit.Common.Sort.{sort}
use hellogit.Snackbar.{success_message, fail_message, error_message}
use hellogit.Policy.Types.{
  Rule, RuleSetData, Page, Outcome, request, snackbar, get_rule_sets, check_zeek, Reply, ok,
  error_message_class, http_error, Job, Notification, Uploaded, one, many, other, new_array,
  write_array, write_object, assign_rules, new_rule_set, new_rule_sets,
}
use hellogit.Policy.Actions.{
  rule_alphanum, rule_set_alphanum, get_rule_set_index, get_rule_index, all_hidden,
}

-- `${a} ${b}`
abbrev words : String → String → String
words a b = String.◌++◌ a (String.◌++◌ " " b)

unfoldable pub replied_sync_rule_sets : Reply (Unit {0}) → Page → Outcome
replied_sync_rule_sets (ok _) p = (
  p,
  snackbar "Started Rule Sync. Open the notification dialog on the left to see its progress." ∷ [],
)
replied_sync_rule_sets _ p = (
  p,
  snackbar (error_message "syncing rule sets. Check logs in /var/log/tfplenum/ for more details.")
      ∷ [],
)

unfoldable pub replied_get_rule_sets :
    (String → String → Bool) → Reply (List RuleSetData) → Page → Outcome
unfolding new_rule_sets new_rule_set
replied_get_rule_sets at_most (ok response) p =
    let (q, rows) = new_rule_sets response p in
    (
      record q {
        rules_visible_ = all_hidden (length response);
        rule_sets = sort (λ a b. rule_set_alphanum at_most (q.objects a) (q.objects b)) rows;
        rulesetchange = false;
      },
      [],
    )
replied_get_rule_sets at_most _ p = (p, snackbar (error_message "getting rule sets") ∷ [])

-- The rule set and the table get one array, which is then sorted in place. (The index only picks
-- a paginator.)
unfoldable pub replied_get_rules :
    (String → String → Bool) → ℕ → Option ℕ → Reply (List Rule) → Page → Outcome
replied_get_rules at_most rule_set index (ok response) p =
    let (q, a) = new_array response p in
    let sorted = sort (rule_alphanum at_most) (q.arrays a) in
    (record (write_array a sorted (assign_rules rule_set (some a) q)) { rules = a }, [])
replied_get_rules at_most rule_set index _ p =
    (p, snackbar (error_message "getting rule set rules") ∷ [])

unfoldable pub replied_create_rule_set : Reply RuleSetData → Page → Outcome
unfolding new_rule_set
replied_create_rule_set (ok response) p =
    let (q, r) = new_rule_set response p in
    (
      record q { rule_sets = q.rule_sets ++ r ∷ [] },
      request get_rule_sets ∷ snackbar (success_message "added rule set file") ∷ [],
    )
replied_create_rule_set (error_message_class m) p = (p, snackbar m ∷ [])
replied_create_rule_set http_error p = (p, snackbar (error_message "adding rule set file") ∷ [])

-- An answer is `some` if it is an instance of RuleSetClass.
unfoldable pub replied_update_rule_set :
    ℕ → Bool → Bool → Reply (Option RuleSetData) → Page → Outcome
unfolding new_rule_set
replied_update_rule_set id enabled true (ok (some response)) p =
    let (q, r) = new_rule_set response p in
    (
      record q { rule_sets = set_at q.rule_sets (get_rule_set_index id q) r },
      snackbar (success_message (words (if enabled then "enabled" else "disabled") "rule set"))
          ∷ [],
    )
replied_update_rule_set id enabled false (ok (some response)) p =
    (p, request get_rule_sets ∷ snackbar (success_message "updated rule set") ∷ [])
replied_update_rule_set id enabled enabling (ok none) p = (
  p,
  snackbar (
        fail_message (
          words (if enabling then if enabled then "enabling" else "disabling" else "updating")
            "rule set"))
      ∷ [],
)
replied_update_rule_set id enabled enabling (error_message_class m) p = (p, snackbar m ∷ [])
replied_update_rule_set id enabled enabling http_error p = (
  p,
  snackbar (
        error_message (
          words (if enabling then if enabled then "enabling" else "disabling" else "updating")
            "rule set"))
      ∷ [],
)

-- The elements of an upload's answer that are RuleClass.
abbrev pub instances : List (Option Rule) → List Rule
instances [] = []
instances (none ∷ xs) = instances xs
instances (some r ∷ xs) = r ∷ instances xs

-- ObjectUtilitiesClass.test_array_values_instanceof
abbrev pub test_array_values_instanceof : List (Option Rule) → Bool
test_array_values_instanceof = every (λ v. elim v [ none ↦ false | some _ ↦ true ])

-- `this.rules_data_source.data = rules`, for a new array
abbrev pub show_rules : List Rule → Page → Page
show_rules rules p = let (q, a) = new_array rules p in record q { rules = a }

unfoldable pub replied_upload_rule_file : Reply Uploaded → Page → Outcome
replied_upload_rule_file (ok (one r)) p =
    (show_rules (p.arrays p.rules ++ r ∷ []) p, snackbar "uploaded ruleset file" ∷ [])
replied_upload_rule_file (ok (many rs)) p =
    if test_array_values_instanceof rs
    then (show_rules (p.arrays p.rules ++ instances rs) p, snackbar "uploaded ruleset file" ∷ [])
    else (p, snackbar (fail_message "uploading rule set file") ∷ [])
replied_upload_rule_file (ok other) p = (p, snackbar (fail_message "uploading rule set file") ∷ [])
replied_upload_rule_file (error_message_class m) p = (p, snackbar m ∷ [])
replied_upload_rule_file http_error p = (p, snackbar (error_message "uploading rule set file") ∷ [])

-- `rule_set.state = 'Dirty'`
abbrev pub make_dirty : ℕ → Page → Page
make_dirty rule_set p =
    let o = p.objects rule_set in
    write_object rule_set (record o { details = record o.details { state = "Dirty" } }) p

unfoldable pub replied_toggle_rule : Rule → ℕ → Reply (Option Rule) → Page → Outcome
replied_toggle_rule rule rule_set (ok (some response)) p =
    let q =
      make_dirty rule_set
        (write_array p.rules (set_at (p.arrays p.rules) (get_rule_index rule.id p) response) p) in
    let index = get_rule_set_index (q.objects rule_set).id q in
    (
      record q { rule_sets = set_at q.rule_sets index rule_set },
      snackbar
            (success_message (words (if not rule.is_enabled then "enabled" else "disabled") "rule"))
          ∷ [],
    )
replied_toggle_rule rule rule_set (ok none) p = (
  p,
  snackbar (fail_message (words (if not rule.is_enabled then "enabling" else "disabling") "rule"))
      ∷ [],
)
replied_toggle_rule rule rule_set (error_message_class m) p = (p, snackbar m ∷ [])
replied_toggle_rule rule rule_set http_error p = (
  p,
  snackbar (error_message (words (if not rule.is_enabled then "enabling" else "disabling") "rule"))
      ∷ [],
)

-- An answer is `some` message if it is an instance of SuccessMessageClass.
unfoldable pub replied_delete_rule : Option ℕ → Reply (Option String) → Page → Outcome
replied_delete_rule index (ok (some message)) p =
    (show_rules (splice_one index (p.arrays p.rules)) p, snackbar message ∷ [])
replied_delete_rule index (ok none) p = (p, snackbar (fail_message "deleting rule") ∷ [])
replied_delete_rule index (error_message_class m) p = (p, snackbar m ∷ [])
replied_delete_rule index http_error p = (p, snackbar (error_message "deleting rule") ∷ [])

unfoldable pub replied_delete_rule_set : ℕ → Reply (Option String) → Page → Outcome
replied_delete_rule_set id (ok (some message)) p = (
  record p { rule_sets = keep (λ r. not ((p.objects r).id == id)) p.rule_sets },
  snackbar message ∷ [],
)
replied_delete_rule_set id (ok none) p = (p, snackbar (fail_message "deleting rule set") ∷ [])
replied_delete_rule_set id (error_message_class m) p = (p, snackbar m ∷ [])
replied_delete_rule_set id http_error p = (p, snackbar (error_message "deleting rule set") ∷ [])

-- The answer is the list of statuses, `none` for null.
unfoldable pub replied_check_suricata {ℓ} : {A : Type ℓ} → Reply (Option (List A)) → Page → Outcome
replied_check_suricata (ok (some [])) p = (p, request check_zeek ∷ [])
replied_check_suricata (ok _) p = (p, [])
replied_check_suricata _ p =
    (p, snackbar (error_message "getting catalog status for suricata") ∷ [])

-- The message's text is the source's, with its line break and the blanks that follow it.
abbrev pub no_sensor_message : String
no_sensor_message =
    String.◌++◌
      "Before using this page, you need to have at least one sensor that has either                                      "
      "Zeek or Suricata installed. Go to the catalog page and install one or both of those applications."

unfoldable pub replied_check_zeek {ℓ} : {A : Type ℓ} → Reply (Option (List A)) → Page → Outcome
replied_check_zeek (ok (some [])) p = (p, snackbar no_sensor_message ∷ [])
replied_check_zeek (ok _) p = (p, [])
replied_check_zeek _ p = (p, snackbar (error_message "getting catalog status for zeek") ∷ [])

-- `description.includes(text)`
abbrev pub includes : String → String → Bool
includes s t = elim (find? s t) [ none ↦ false | some _ ↦ true ]

-- The first of the jobs that passes the filter decides: running unless its status is missing or
-- 'finished'.
abbrev pub first_is_running : List Job → Bool
first_is_running [] = false
first_is_running (j ∷ _) = elim j.status [ none ↦ false | some s ↦ not (str_eq s "finished") ]

unfoldable pub replied_get_jobs : Reply (List Job) → Page → Outcome
replied_get_jobs (ok jobs) p = (
  record p {
    job_status =
        first_is_running (keep (λ (j : Job). includes j.description "perform_rulesync") jobs);
  },
  [],
)
replied_get_jobs _ p = (p, snackbar (error_message "getting jobs") ∷ [])

-- `socket_refresh_broadcast_`: three tests in a row, of which at most one passes.
unfoldable pub broadcast : Notification → Page → Outcome
broadcast n p =
    if str_eq n.role "rulesync"
    then if str_eq n.status "STARTED"
      then (record p { job_status = true }, [])
      else if str_eq n.status "COMPLETED"
      then (record p { job_status = false }, [])
      else if str_eq n.status "ERROR"
      then (
        record p { job_status = false; rulesetchange = false },
        snackbar (
              error_message
                "performing rule sync. Try operation again, and if problem persists notify servicenow.")
            ∷ [],
      )
      else (p, [])
    else (p, [])

-- `socket_refresh_rule_set_change_`
unfoldable pub rule_set_changed : Page → Outcome
rule_set_changed p = (p, request get_rule_sets ∷ [])
