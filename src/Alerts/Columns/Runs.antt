-- ===== src/Alerts/Columns/Runs.antt =====
-- The columns of the table through every handler and any run.
use text.Mathlib.Text.{◌==◌ as str_eq}
use hellogit.Common.{◌≡◌, refl, true, false, ◌||◌, none, some, List, [], ◌∷◌, All}
use hellogit.Rest.{ok}
use hellogit.Alerts.Types.{Page, Calendar, Moment, Jar, modify, remove}
use hellogit.Alerts.Actions.{
  update_alerts_table, opened, tick, ng_on_destroy, toggle_auto_refresh, refresh_alerts,
  change_query_time_amount, time_interval_selection_change, toggle_absolute_time_controls,
  date_time_change, filter_acknowledged, filter_escalated, filter_closed_alerts,
}
use hellogit.Alerts.Links.{
  open_alert_in_kibana_tab, open_alert_in_arkime_tab, open_alert_in_hive_tab,
  open_alert_drilldown_dialog, escalate_alert, acknowledge_event, unacknowledged_event,
  remove_alerts_confirm_dialog,
}
use hellogit.Alerts.Replies.{
  confirm_closed, escalate_closed, replied_get_fields, replied_get_alerts, replied_get_alert_list,
  replied_modify_alert, replied_remove_alerts, replied_get_portal_links, replied_fork_join,
}
use hellogit.Alerts.Events
use hellogit.Alerts.Columns.{
  AreKept, are_free, WellFormed, update-WellFormed, same-WellFormed, if_WellFormed, start_lem,
  add-WellFormed, select-WellFormed, remove_chip-WellFormed, allocate_keeps,
}

module _ (calendar : Calendar) where
  -- The server offers no column that the table has anyway, and no such column is picked.
  abbrev pub NamesNew : Events.Event → Type 0
  NamesNew (Events.select_chip now v) = are_free (v ∷ []) ≡ true
  NamesNew (Events.reply_fields (ok fields)) = are_free fields ≡ true
  NamesNew _ = Unit

  handle-WellFormed :
      (e : Events.Event) (p : Page)
      → NamesNew e
      → WellFormed p
      → WellFormed (Events.handle calendar e p).0
  unfolding Events.handle tick ng_on_destroy toggle_auto_refresh refresh_alerts
      change_query_time_amount time_interval_selection_change toggle_absolute_time_controls
      date_time_change filter_acknowledged filter_escalated filter_closed_alerts
      open_alert_in_kibana_tab open_alert_in_arkime_tab open_alert_in_hive_tab
      open_alert_drilldown_dialog escalate_alert acknowledge_event unacknowledged_event
      remove_alerts_confirm_dialog confirm_closed escalate_closed replied_get_fields
      replied_get_alerts replied_get_alert_list replied_modify_alert replied_remove_alerts
      replied_get_portal_links replied_fork_join
  handle-WellFormed (Events.interval now) p n w =
      if_WellFormed p.auto_refresh (update_alerts_table calendar now false p) (p, [])
        (update-WellFormed calendar now false p w) w
  handle-WellFormed (Events.refresh now) p n w = update-WellFormed calendar now true p w
  handle-WellFormed Events.leave p n w = w
  handle-WellFormed Events.auto p n w = same-WellFormed p _ refl refl refl w
  handle-WellFormed (Events.type_amount now []) p n w = same-WellFormed p _ refl refl refl w
  handle-WellFormed (Events.type_amount now (k ∷ ks)) p n w =
      update-WellFormed calendar now false _ (same-WellFormed p _ refl refl refl w)
  handle-WellFormed (Events.select_interval now t) p n w =
      update-WellFormed calendar now false _ (same-WellFormed p _ refl refl refl w)
  handle-WellFormed (Events.toggle_absolute now later) p n w =
      update-WellFormed calendar later false _ (same-WellFormed p _ refl refl refl w)
  handle-WellFormed (Events.pick_dates now start end) p n w =
      update-WellFormed calendar now false _ (same-WellFormed p _ refl refl refl w)
  handle-WellFormed (Events.set_acknowledged now b) p n w =
      update-WellFormed calendar now false _ (same-WellFormed p _ refl refl refl w)
  handle-WellFormed (Events.set_escalated now b) p n w =
      update-WellFormed calendar now false _ (same-WellFormed p _ refl refl refl w)
  handle-WellFormed (Events.set_show_closed now b) p n w =
      update-WellFormed calendar now false _ (same-WellFormed p _ refl refl refl w)
  handle-WellFormed (Events.add_chip now t) p n w = add-WellFormed calendar now t p w
  handle-WellFormed (Events.remove_chip now t) p n w = remove_chip-WellFormed calendar now t p w
  handle-WellFormed (Events.select_chip now t) p n w = select-WellFormed calendar now t p n w
  handle-WellFormed (Events.kibana r) p n w = w
  handle-WellFormed (Events.arkime r) p n w = w
  handle-WellFormed (Events.hive r) p n w = same-WellFormed p _ refl refl refl w
  handle-WellFormed (Events.drilldown r) p n w = same-WellFormed p _ refl refl refl w
  handle-WellFormed (Events.escalate r) p n w = same-WellFormed p _ refl refl refl w
  handle-WellFormed (Events.acknowledge r) p n w = w
  handle-WellFormed (Events.unacknowledge r) p n w = w
  handle-WellFormed (Events.remove_row r) p n w = w
  handle-WellFormed (Events.close_confirm switch r false) p n w = w
  handle-WellFormed (Events.close_confirm modify r true) p n w =
      same-WellFormed p _ refl refl refl w
  handle-WellFormed (Events.close_confirm remove r true) p n w =
      same-WellFormed p _ refl refl refl w
  handle-WellFormed (Events.close_escalate r none) p n w = w
  handle-WellFormed (Events.close_escalate r (some (false, hive))) p n w = w
  handle-WellFormed (Events.close_escalate r (some (true, hive))) p n w =
      same-WellFormed p _ refl refl refl w
  handle-WellFormed (Events.reply_fields (ok fields)) p n w = record {
    columns = w.columns;
    different = w.different;
    free = w.free;
    options = n;
  }
  handle-WellFormed (Events.reply_fields _) p n w = w
  handle-WellFormed (Events.reply_alerts display (ok rows)) p n w =
      let (d, a, o) = allocate_keeps calendar rows p in same-WellFormed p _ d a o w
  handle-WellFormed (Events.reply_alerts display _) p n w = w
  handle-WellFormed (Events.reply_alert_list (ok [])) p n w = w
  handle-WellFormed (Events.reply_alert_list (ok (h ∷ hs))) p n w = w
  handle-WellFormed (Events.reply_alert_list _) p n w = w
  handle-WellFormed (Events.reply_modify now (ok total)) p n w =
      update-WellFormed calendar now false p w
  handle-WellFormed (Events.reply_modify now _) p n w = w
  handle-WellFormed (Events.reply_remove now (ok total)) p n w =
      update-WellFormed calendar now false p w
  handle-WellFormed (Events.reply_remove now _) p n w = w
  handle-WellFormed (Events.reply_portal_links (ok ls)) p n w = same-WellFormed p _ refl refl refl w
  handle-WellFormed (Events.reply_portal_links _) p n w = w
  handle-WellFormed (Events.reply_fork_join r k a (ok (key, none))) p n w =
      if_WellFormed (str_eq key "" || str_eq key "org_admin_api_key") (p, _) (p, _) w w
  handle-WellFormed (Events.reply_fork_join r k a (ok (key, some []))) p n w =
      if_WellFormed (str_eq key "" || str_eq key "org_admin_api_key") (p, _) (p, _) w w
  handle-WellFormed (Events.reply_fork_join r k a (ok (key, some (d ∷ ds)))) p n w =
      if_WellFormed (str_eq key "" || str_eq key "org_admin_api_key") (p, _) (p, _) w w
  handle-WellFormed (Events.reply_fork_join r k a _) p n w = w

  run_lem :
      (es : List Events.Event) (p : Page)
      → All NamesNew es
      → WellFormed p
      → WellFormed (Events.run calendar es p)
  unfolding Events.run
  run_lem [] p n w = w
  run_lem (e ∷ es) p n w =
      run_lem es (Events.handle calendar e p).0 n.1 (handle-WellFormed e p n.0 w)

  opened-WellFormed :
      (now : Moment) (jar : Jar)
      → AreKept jar.dynamic_columns
      → WellFormed (opened calendar now jar).0
  unfolding opened
  opened-WellFormed now jar kept =
      let (d, f) = start_lem jar.dynamic_columns kept in
      update-WellFormed calendar now false _
        (record { columns = refl; different = d; free = f; options = refl })

  -- From the cookies of a visit before, or none, and through any run, the table has the columns
  -- `actions` and `count` and behind them the chips in their order, no column twice; as long as the
  -- server offers, and the user picks, no chip that is called like the two.
  pub run-WellFormed :
      (es : List Events.Event) (now : Moment) (jar : Jar)
      → AreKept jar.dynamic_columns
      → All NamesNew es
      → WellFormed (Events.run calendar es (opened calendar now jar).0)
  run-WellFormed es now jar kept n =
      run_lem es (opened calendar now jar).0 n (opened-WellFormed now jar kept)
