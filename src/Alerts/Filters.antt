-- ===== src/Alerts/Filters.antt =====
-- The filters of acknowledged and of escalated alerts.
use text.Mathlib.Text.{◌==◌ as str_eq}
use hellogit.Common.{
  text_eq, trim, is_empty, ℕ, ◌≡◌, refl, inl, inr, Bool, true, false, not, ◌&&◌, ◌||◌, Option, none,
  some, List, [], ◌∷◌, if◌then◌else◌, find_index, Bool-cases,
}
use hellogit.Rest.{ok}
use hellogit.Alerts.Types.{
  TimeForm, Page, Row, Outcome, Calendar, Moment, Jar, allocate, modify, remove,
}
use hellogit.Alerts.Actions.{
  member, no_columns, set_date_times, update_alerts_table, initialize_time_form_group, opened, tick,
  ng_on_destroy, toggle_auto_refresh, refresh_alerts, change_query_time_amount,
  time_interval_selection_change, toggle_absolute_time_controls, date_time_change,
  filter_acknowledged, filter_escalated, filter_closed_alerts, add_alert_chip, remove_alert_chip,
  remove_columns, autocomplete_selection_chip, push_column,
}
use hellogit.Alerts.Links.{
  open_alert_in_kibana_tab, open_alert_in_arkime_tab, open_alert_in_hive_tab,
  open_alert_drilldown_dialog, escalate_alert, acknowledge_event, unacknowledged_event,
  remove_alerts_confirm_dialog,
}
use hellogit.Alerts.Replies.{
  confirm_closed, escalate_closed, allocate_all, replied_get_fields, replied_get_alerts,
  replied_get_alert_list, success_modify_remove_alerts, replied_modify_alert, replied_remove_alerts,
  replied_get_portal_links, replied_fork_join,
}
use hellogit.Alerts.Events

-- Not both filters are on.
abbrev pub is_exclusive : TimeForm → Bool
is_exclusive f = not (f.acknowledged && f.escalated)

abbrev pub Exclusive : Page → Type 0
Exclusive p = is_exclusive p.time_form ≡ true

if_Exclusive :
    (b : Bool) (x y : Outcome) → Exclusive x.0 → Exclusive y.0 → Exclusive (if b then x else y).0
if_Exclusive true x y h k = h
if_Exclusive false x y h k = k

if_and : (a : Bool) → not (a && false) ≡ true
if_and true = refl
if_and false = refl

-- What the cookie keeps of an earlier visit, if there was one.
abbrev pub AreExclusive : Option TimeForm → Type 0
AreExclusive none = Unit
AreExclusive (some f) = is_exclusive f ≡ true

start_lem :
    (form : Option TimeForm)
    → AreExclusive form
    → is_exclusive (initialize_time_form_group form) ≡ true
unfolding initialize_time_form_group
start_lem none kept = refl
start_lem (some f) kept = kept

allocate_keeps : (rows : List Row) (p : Page) → (allocate_all rows p).0.time_form ≡ p.time_form
unfolding allocate_all
allocate_keeps [] p = refl
allocate_keeps (row ∷ rows) p = allocate_keeps rows (allocate row p).0

module _ (calendar : Calendar) where
  set-Exclusive :
      (now : Moment) (f : TimeForm)
      → is_exclusive f ≡ true
      → is_exclusive (set_date_times calendar now f) ≡ true
  unfolding set_date_times
  set-Exclusive now f x = x

  update-Exclusive :
      (now : Moment) (display : Bool) (p : Page)
      → Exclusive p
      → Exclusive (update_alerts_table calendar now display p).0
  unfolding update_alerts_table
  update-Exclusive now display p x = elim (Bool-cases (no_columns p.dynamic_columns)) [
    | inl e ↦ rw e x
    | inr e ↦ elim (Bool-cases p.time_form.absolute_time) [
      | inl a ↦ rw (e, a) x
      | inr a ↦ rw (e, a) (set-Exclusive now p.time_form x)
    ]
  ]

  remove_Exclusive :
      (now : Moment) (p : Page) (i j : Option ℕ)
      → Exclusive p
      → Exclusive (remove_columns calendar now i j p).0
  unfolding remove_columns
  remove_Exclusive now p none j x = x
  remove_Exclusive now p (some i) none x = x
  remove_Exclusive now p (some i) (some j) x = update-Exclusive now false _ x

  handle-Exclusive :
      (e : Events.Event) (p : Page) → Exclusive p → Exclusive (Events.handle calendar e p).0
  unfolding Events.handle tick ng_on_destroy toggle_auto_refresh refresh_alerts
      change_query_time_amount time_interval_selection_change toggle_absolute_time_controls
      date_time_change filter_acknowledged filter_escalated filter_closed_alerts add_alert_chip
      autocomplete_selection_chip remove_alert_chip remove_columns open_alert_in_kibana_tab
      open_alert_in_arkime_tab open_alert_in_hive_tab open_alert_drilldown_dialog escalate_alert
      acknowledge_event unacknowledged_event remove_alerts_confirm_dialog confirm_closed
      escalate_closed replied_get_fields replied_get_alerts replied_get_alert_list
      replied_modify_alert replied_remove_alerts replied_get_portal_links replied_fork_join
      success_modify_remove_alerts
  handle-Exclusive (Events.interval now) p x =
      if_Exclusive p.auto_refresh _ _ (update-Exclusive now false p x) x
  handle-Exclusive (Events.refresh now) p x = update-Exclusive now true _ x
  handle-Exclusive (Events.leave) p x = x
  handle-Exclusive (Events.auto) p x = x
  handle-Exclusive (Events.type_amount now []) p x = x
  handle-Exclusive (Events.type_amount now (k ∷ ks)) p x = update-Exclusive now false _ x
  handle-Exclusive (Events.select_interval now t) p x = update-Exclusive now false _ x
  handle-Exclusive (Events.toggle_absolute now later) p x =
      update-Exclusive later false _ (
        set-Exclusive now (record (p.time_form) { absolute_time = not p.time_form.absolute_time })
          x)
  handle-Exclusive (Events.pick_dates now start end) p x = update-Exclusive now false _ x
  handle-Exclusive (Events.set_acknowledged now true) p x = update-Exclusive now false _ refl
  handle-Exclusive (Events.set_acknowledged now false) p x = update-Exclusive now false _ refl
  handle-Exclusive (Events.set_escalated now true) p x = update-Exclusive now false _ refl
  handle-Exclusive (Events.set_escalated now false) p x =
      update-Exclusive now false _ (if_and p.time_form.acknowledged)
  handle-Exclusive (Events.set_show_closed now b) p x = update-Exclusive now false _ x
  handle-Exclusive (Events.add_chip now t) p x =
      if_Exclusive
        (not (is_empty (trim t))
          && member (trim t) p.all_chip_options
          && not (member (trim t) p.dynamic_columns))
        _ _ (update-Exclusive now false (push_column (trim t) p) x) x
  handle-Exclusive (Events.remove_chip now t) p x =
      remove_Exclusive now p (find_index (text_eq t) p.dynamic_columns)
        (find_index (text_eq t) p.all_columns) x
  handle-Exclusive (Events.select_chip now t) p x =
      if_Exclusive (member t p.dynamic_columns) _ _ x
        (update-Exclusive now false (push_column t p) x)
  handle-Exclusive (Events.kibana r) p x = x
  handle-Exclusive (Events.arkime r) p x = x
  handle-Exclusive (Events.hive r) p x = x
  handle-Exclusive (Events.drilldown r) p x = x
  handle-Exclusive (Events.escalate r) p x = x
  handle-Exclusive (Events.acknowledge r) p x = x
  handle-Exclusive (Events.unacknowledge r) p x = x
  handle-Exclusive (Events.remove_row r) p x = x
  handle-Exclusive (Events.close_confirm switch r false) p x = x
  handle-Exclusive (Events.close_confirm modify r true) p x = x
  handle-Exclusive (Events.close_confirm remove r true) p x = x
  handle-Exclusive (Events.close_escalate r none) p x = x
  handle-Exclusive (Events.close_escalate r (some (false, h))) p x = x
  handle-Exclusive (Events.close_escalate r (some (true, h))) p x = x
  handle-Exclusive (Events.reply_fields (ok fs)) p x = x
  handle-Exclusive (Events.reply_fields _) p x = x
  handle-Exclusive (Events.reply_alerts display (ok rows)) p x = rw (allocate_keeps rows p) x
  handle-Exclusive (Events.reply_alerts display _) p x = x
  handle-Exclusive (Events.reply_alert_list (ok [])) p x = x
  handle-Exclusive (Events.reply_alert_list (ok (h ∷ hs))) p x = x
  handle-Exclusive (Events.reply_alert_list _) p x = x
  handle-Exclusive (Events.reply_modify now (ok total)) p x = update-Exclusive now false _ x
  handle-Exclusive (Events.reply_modify now _) p x = x
  handle-Exclusive (Events.reply_remove now (ok total)) p x = update-Exclusive now false _ x
  handle-Exclusive (Events.reply_remove now _) p x = x
  handle-Exclusive (Events.reply_portal_links (ok ls)) p x = x
  handle-Exclusive (Events.reply_portal_links _) p x = x
  handle-Exclusive (Events.reply_fork_join r k a (ok (key, none))) p x =
      if_Exclusive (str_eq key "" || str_eq key "org_admin_api_key") _ _ x x
  handle-Exclusive (Events.reply_fork_join r k a (ok (key, some []))) p x =
      if_Exclusive (str_eq key "" || str_eq key "org_admin_api_key") _ _ x x
  handle-Exclusive (Events.reply_fork_join r k a (ok (key, some (d ∷ ds)))) p x =
      if_Exclusive (str_eq key "" || str_eq key "org_admin_api_key") _ _ x x
  handle-Exclusive (Events.reply_fork_join r k a _) p x = x

  run_lem : (es : List Events.Event) (p : Page) → Exclusive p → Exclusive (Events.run calendar es p)
  unfolding Events.run
  run_lem [] p x = x
  run_lem (e ∷ es) p x = run_lem es (Events.handle calendar e p).0 (handle-Exclusive e p x)

  -- From a form in the cookie that has not both filters, or from none, and through any run: the
  -- filters of acknowledged and of escalated alerts are never both on.
  pub run-Exclusive :
      (es : List Events.Event) (now : Moment) (jar : Jar)
      → AreExclusive jar.time_form_group
      → Exclusive (Events.run calendar es (opened calendar now jar).0)
  unfolding opened
  run-Exclusive es now jar kept =
      run_lem es _ (update-Exclusive now false _ (start_lem jar.time_form_group kept))
