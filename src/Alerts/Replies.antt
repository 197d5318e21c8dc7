-- ===== src/Alerts/Replies.antt =====
-- What the answers of the server and the dialogs that close make of the page. The value of the form
-- is taken as a copy.
use Prim.Native.String
use text.Mathlib.Text.{◌==◌ as str_eq}
use hellogit.Common.{
  Text, codes, text_eq, ℕ, String, Bool, true, false, ◌||◌, Option, none, some, List, [], ◌∷◌,
  if◌then◌else◌,
}
use hellogit.Rest.{Reply, ok, error_message_class, http_error}
use hellogit.Snackbar.{success_message, error_message}
use hellogit.Alerts.Types.{
  HiveForm, form, Row, Page, Link, hive_case, Switch, modify, remove, Effect, modify_alert,
  remove_alerts, open_escalate, open_tab, snackbar, type_error, Outcome, Calendar, Moment, allocate,
  set_field,
}
use hellogit.Alerts.Actions.{update_alerts_table}
use hellogit.Alerts.Links.{get_link}

-- The confirm dialog closed, with `response === CONFIRM_DIALOG_OPTION` or not.
unfoldable pub confirm_closed : Switch → ℕ → Bool → Page → Outcome
confirm_closed switch r false p = (p, [])
confirm_closed modify r true p =
    (set_field r (codes "form") (form p.time_form (some false) none) p, modify_alert r ∷ [])
confirm_closed remove r true p =
    (set_field r (codes "form") (form p.time_form none none) p, remove_alerts r ∷ [])

-- The dialog to escalate closed: undefined, or a form that is valid or not.
unfoldable pub escalate_closed : ℕ → Option (Bool × HiveForm) → Page → Outcome
escalate_closed r none p = (p, [])
escalate_closed r (some (false, hive)) p = (p, [])
escalate_closed r (some (true, hive)) p =
    (set_field r (codes "form") (form p.time_form (some true) (some hive)) p, modify_alert r ∷ [])

unfoldable pub replied_get_fields : Reply (List Text) → Page → Outcome
replied_get_fields (ok response) p = (record p { all_chip_options = response }, [])
replied_get_fields _ p = (p, snackbar (error_message "retrieving fields for chip options") ∷ [])

-- The objects of a response
unfoldable pub allocate_all : List Row → Page → Page × List ℕ
allocate_all [] p = (p, [])
allocate_all (row ∷ rows) p =
    let (q, r) = allocate row p in let (q', rs) = allocate_all rows q in (q', r ∷ rs)

unfoldable pub replied_get_alerts : Bool → Reply (List Row) → Page → Outcome
unfolding allocate_all
replied_get_alerts display (ok response) p =
    let (q, rows) = allocate_all response p in
    (
      record q { table = rows },
      if display then snackbar (success_message "updated Alerts table!") ∷ [] else [],
    )
replied_get_alerts display (error_message_class m) p = (p, snackbar m ∷ [])
replied_get_alerts display http_error p =
    (p, snackbar (error_message "retrieving alerts check logs for more details") ∷ [])

-- The hits, each by its hive id without its sign.
unfoldable pub replied_get_alert_list : Reply (List ℕ) → Page → Outcome
replied_get_alert_list (ok []) p = (p, type_error ∷ [])
replied_get_alert_list (ok (id ∷ ids)) p =
    (p, open_tab (hive_case (get_link (codes "hive") p.portal_links []) id) ∷ [])
replied_get_alert_list _ p = (p, snackbar (error_message "retrieving alert list") ∷ [])

-- `success_modify_remove_alerts_`; the total is in its words.
unfoldable pub success_modify_remove_alerts : Calendar → Moment → String → Page → Outcome
success_modify_remove_alerts calendar now total p =
    let (q, effects) = update_alerts_table calendar now false p in
    (
      q,
      snackbar
            (success_message (String.◌++◌ "performed operation on " (String.◌++◌ total " Alerts.")))
          ∷ effects,
    )

unfoldable pub replied_modify_alert : Calendar → Moment → Reply String → Page → Outcome
unfolding success_modify_remove_alerts
replied_modify_alert calendar now (ok total) p = success_modify_remove_alerts calendar now total p
replied_modify_alert calendar now (error_message_class m) p = (p, snackbar m ∷ [])
replied_modify_alert calendar now http_error p =
    (p, snackbar (error_message "modifying alert") ∷ [])

unfoldable pub replied_remove_alerts : Calendar → Moment → Reply String → Page → Outcome
unfolding success_modify_remove_alerts
replied_remove_alerts calendar now (ok total) p = success_modify_remove_alerts calendar now total p
replied_remove_alerts calendar now (error_message_class m) p = (p, snackbar m ∷ [])
replied_remove_alerts calendar now http_error p =
    (p, snackbar (error_message "removing alert") ∷ [])

unfoldable pub replied_get_portal_links : Reply (List Text) → Page → Outcome
replied_get_portal_links (ok response) p = (record p { portal_links = response }, [])
replied_get_portal_links _ p = (p, snackbar (error_message "retrieving portal links") ∷ [])

-- The details of a hit: its event's kind and severity if it has an event, the name of its rule, and
-- that of its signal's rule.
pub record Details : Type 0 where
  pub event : Option (Option Text × Option Text)
  pub rule_name : Option Text
  pub signal_rule_name : Option Text

abbrev is_signal_kind : Option Text → Bool
is_signal_kind none = false
is_signal_kind (some kind) = text_eq kind (codes "signal")

abbrev or_else : Text → Option Text → Text
or_else t none = t
or_else t (some u) = u

-- The title and the severity of the case, or none where the signal has no rule.
unfoldable pub case_of : Details → Option (Text × Text)
case_of d = elim d.event [
  | none ↦ some ([], codes "2")
  | some (kind, severity) ↦
      if is_signal_kind kind
      then elim d.signal_rule_name [
        | none ↦ none
        | some name ↦ some (name, or_else (codes "2") severity)
      ]
      else some (or_else [] d.rule_name, or_else (codes "2") severity)
]

abbrev escalate_or_throw : ℕ → Link → Link → Option (Text × Text) → List Effect
escalate_or_throw r kibana arkime none = type_error ∷ []
escalate_or_throw r kibana arkime (some (title, severity)) =
    open_escalate r title severity kibana arkime ∷ []

-- `forkJoin` of the hive settings, by their admin_api_key, and the hits of the row, if the answer has them.
unfoldable pub replied_fork_join :
    ℕ → Link → Link → Reply (String × Option (List Details)) → Page → Outcome
unfolding case_of
replied_fork_join r kibana arkime (ok (admin_api_key, hits)) p =
    if str_eq admin_api_key "" || str_eq admin_api_key "org_admin_api_key"
    then (
      p,
      snackbar
            "Hive is not configured. Please navigate to System Settings -> Hive Settings to set your Hive API Keys."
          ∷ [],
    )
    else elim hits [
      | none ↦ (p, snackbar "Failed to get event details for the selected Alert group." ∷ [])
      | some [] ↦ (p, type_error ∷ [])
      | some (d ∷ ds) ↦ (p, escalate_or_throw r kibana arkime (case_of d))
    ]
replied_fork_join r kibana arkime _ p =
    (p, snackbar (error_message "retrieving hive settings or alert list") ∷ [])
