-- ===== src/Alerts/Columns.antt =====
-- The columns of the table, as they are added and removed.
pub mod Runs
use text.Mathlib.Text.{◌==◌ as str_eq}
use hellogit.Common.{
  conjuncts, Text, codes, text_eq, text_eq-eq, text_eq_refl, trim, is_empty, ℕ, zero, suc, ◌≡◌,
  refl, sym, ap, subst, ◌∙◌, ◌≢◌, ◌⊎◌, inl, inr, Bool, true, false, not, ◌&&◌, ◌||◌, Option, none,
  some, List, [], ◌∷◌, ◌++◌, arith, if◌then◌else◌, any, All, find_index, remove_at, Bool-cases,
  Option-cases,
}
use hellogit.Rest.{ok, error_message_class, http_error}
use hellogit.Alerts.Types.{Page, Row, Outcome, Calendar, Moment, Jar, allocate, modify, remove}
use hellogit.Alerts.Actions.{
  actions_column, count_column, get_dynamic_columns, member, no_columns, set_date_times, ask,
  update_alerts_table, opened, tick, ng_on_destroy, toggle_auto_refresh, refresh_alerts,
  change_query_time_amount, time_interval_selection_change, toggle_absolute_time_controls,
  date_time_change, filter_acknowledged, filter_escalated, filter_closed_alerts, add_alert_chip,
  remove_alert_chip, remove_columns, autocomplete_selection_chip, push_column,
}
use hellogit.Alerts.Distinct.{
  distinct, lack, lack-snoc, lack-remove, lack-option, find-behind, member-snoc, distinct-snoc,
  member-remove, distinct-remove, member-find, member-differs,
}
use hellogit.Alerts.Links.{
  open_alert_in_kibana_tab, open_alert_in_arkime_tab, open_alert_in_hive_tab,
  open_alert_drilldown_dialog, escalate_alert, acknowledge_event, unacknowledged_event,
  remove_alerts_confirm_dialog,
}
use hellogit.Alerts.Replies.{
  confirm_closed, escalate_closed, replied_get_fields, allocate_all, replied_get_alerts,
  replied_get_alert_list, replied_modify_alert, replied_remove_alerts, replied_get_portal_links,
  replied_fork_join,
}
use hellogit.Alerts.Events

-- Neither of the columns that every table starts with.
abbrev pub are_free : List Text → Bool
are_free ts = lack actions_column count_column ts

-- The columns of the table are the two fixed ones and the chips, the chips are different, and
-- neither they nor those that can be chosen are among the fixed ones.
pub record WellFormed (p : Page) : Type 0 where
  pub columns : p.all_columns ≡ actions_column ∷ count_column ∷ p.dynamic_columns
  pub different : distinct p.dynamic_columns ≡ true
  pub free : are_free p.dynamic_columns ≡ true
  pub options : are_free p.all_chip_options ≡ true

-- `update_alerts_table_` leaves the columns and the options alone.
update_keeps :
    (calendar : Calendar) (now : Moment) (display : Bool) (p : Page)
    → let q = (update_alerts_table calendar now display p).0 in
      (q.dynamic_columns ≡ p.dynamic_columns)
      × (q.all_columns ≡ p.all_columns)
      × (q.all_chip_options ≡ p.all_chip_options)
unfolding update_alerts_table
update_keeps calendar now display p = ground arith

pub update-WellFormed :
    (calendar : Calendar) (now : Moment) (display : Bool) (p : Page)
    → WellFormed p
    → WellFormed (update_alerts_table calendar now display p).0
update-WellFormed calendar now display p w =
    let (d, a, o) = update_keeps calendar now display p in
    record {
      columns = rw (d, a) w.columns;
      different = rw d w.different;
      free = rw d w.free;
      options = rw o w.options;
    }

push-WellFormed :
    (v : Text) (p : Page)
    → WellFormed p
    → member v p.dynamic_columns ≡ false
    → are_free (v ∷ []) ≡ true
    → WellFormed (push_column v p)
push-WellFormed v p w m f = record {
  columns = ap (λ ts. ts ++ v ∷ []) w.columns;
  different = distinct-snoc v p.dynamic_columns w.different m;
  free = lack-snoc actions_column count_column v p.dynamic_columns w.free f;
  options = w.options;
}

remove-WellFormed :
    (i : ℕ) (p : Page)
    → WellFormed p
    → WellFormed (record p {
      dynamic_columns = remove_at i p.dynamic_columns;
      all_columns = remove_at (suc (suc i)) p.all_columns;
    })
remove-WellFormed i p w = record {
  columns = ap (remove_at (suc (suc i))) w.columns;
  different = distinct-remove i p.dynamic_columns w.different;
  free = lack-remove actions_column count_column i p.dynamic_columns w.free;
  options = w.options;
}

-- The form, the rows and the links are no part of it.
pub same-WellFormed :
    (p q : Page)
    → q.dynamic_columns ≡ p.dynamic_columns
    → q.all_columns ≡ p.all_columns
    → q.all_chip_options ≡ p.all_chip_options
    → WellFormed p
    → WellFormed q
same-WellFormed p q d a o w = record {
  columns = rw (d, a) w.columns;
  different = rw d w.different;
  free = rw d w.free;
  options = rw o w.options;
}

pub if_WellFormed :
    (b : Bool) (x y : Outcome) → WellFormed x.0 → WellFormed y.0 → WellFormed (if b then x else y).0
if_WellFormed true x y h k = h
if_WellFormed false x y h k = k

-- What the cookies keep of an earlier visit, if there was one: different columns, none of them fixed.
abbrev pub AreKept : Option (List Text) → Type 0
AreKept none = Unit
AreKept (some ts) = (distinct ts ≡ true) × (are_free ts ≡ true)

pub start_lem :
    (columns : Option (List Text))
    → AreKept columns
    → let ts = get_dynamic_columns columns in (distinct ts ≡ true) × (are_free ts ≡ true)
unfolding get_dynamic_columns
start_lem none kept = (refl, refl)
start_lem (some ts) kept = kept

module _ (calendar : Calendar) where
  pub add-WellFormed :
      (now : Moment) (typed : Text) (p : Page)
      → WellFormed p
      → WellFormed (add_alert_chip calendar now typed p).0
  unfolding add_alert_chip
  add-WellFormed now typed p w =
      elim (Bool-cases (
        not (is_empty (trim typed))
        && member (trim typed) p.all_chip_options
        && not (member (trim typed) p.dynamic_columns))) [
          | inl e ↦
              let v = trim typed in
              let (x, y, z) =
                conjuncts (not (is_empty v)) (member v p.all_chip_options)
                  (not (member v p.dynamic_columns)) e in
              rw e (
                update-WellFormed calendar now false (push_column v p) (
                  push-WellFormed v p w (ground arith)
                    (lack-option actions_column count_column v p.all_chip_options w.options y)))
          | inr e ↦ rw e w
        ]

  pub select-WellFormed :
      (now : Moment) (v : Text) (p : Page)
      → are_free (v ∷ []) ≡ true
      → WellFormed p
      → WellFormed (autocomplete_selection_chip calendar now v p).0
  unfolding autocomplete_selection_chip
  select-WellFormed now v p f w = elim (Bool-cases (member v p.dynamic_columns)) [
    | inl e ↦ rw e w
    | inr e ↦
        rw e (update-WellFormed calendar now false (push_column v p) (push-WellFormed v p w e f))
  ]

  pub remove_chip-WellFormed :
      (now : Moment) (name : Text) (p : Page)
      → WellFormed p
      → WellFormed (remove_alert_chip calendar now name p).0
  unfolding remove_alert_chip
  remove_chip-WellFormed now name p w =
      elim (Option-cases (find_index (text_eq name) p.dynamic_columns)) [
        | inl e ↦ rw (e, remove_columns) w
        | inr (i, e) ↦
            let g = find-behind name actions_column count_column i p.dynamic_columns w.free e in
            let h : find_index (text_eq name) p.all_columns ≡ some (suc (suc i)) =
              ap (find_index (text_eq name)) w.columns ∙ g in
            rw (e, h) (update-WellFormed calendar now false _ (remove-WellFormed i p w))
      ]

  pub allocate_keeps :
      (rows : List Row) (p : Page)
      → let q = (allocate_all rows p).0 in
        (q.dynamic_columns ≡ p.dynamic_columns)
        × (q.all_columns ≡ p.all_columns)
        × (q.all_chip_options ≡ p.all_chip_options)
  unfolding allocate_all
  allocate_keeps [] p = (refl, refl, refl)
  allocate_keeps (row ∷ rows) p = allocate_keeps rows (allocate row p).0
