-- ===== src/Alerts/Events.antt =====
-- What can happen to the page, one handler at a time, in any order.
use hellogit.Common.{Text, ℕ, String, Bool, Option, List, [], ◌∷◌}
use hellogit.Rest.{Reply}
use hellogit.Alerts.Types.{Date, HiveForm, Row, Page, Link, Switch, Outcome, Calendar, Moment}
use hellogit.Alerts.Actions.{
  tick, ng_on_destroy, toggle_auto_refresh, refresh_alerts, change_query_time_amount,
  time_interval_selection_change, toggle_absolute_time_controls, date_time_change,
  filter_acknowledged, filter_escalated, filter_closed_alerts, add_alert_chip, remove_alert_chip,
  autocomplete_selection_chip,
}
use hellogit.Alerts.Links.{
  open_alert_in_kibana_tab, open_alert_in_arkime_tab, open_alert_in_hive_tab,
  open_alert_drilldown_dialog, escalate_alert, acknowledge_event, unacknowledged_event,
  remove_alerts_confirm_dialog,
}
use hellogit.Alerts.Replies.{
  Details, confirm_closed, escalate_closed, replied_get_fields, replied_get_alerts,
  replied_get_alert_list, replied_modify_alert, replied_remove_alerts, replied_get_portal_links,
  replied_fork_join,
}

-- Handlers that read the clock have a moment.
pub data Event : Type 0 where
  interval refresh : Moment → Event
  leave auto : Event
  type_amount : Moment → Text → Event
  select_interval : Moment → Text → Event
  toggle_absolute : Moment → Moment → Event
  pick_dates : Moment → Option Date → Option Date → Event
  set_acknowledged set_escalated set_show_closed : Moment → Bool → Event
  add_chip remove_chip select_chip : Moment → Text → Event
  kibana arkime hive drilldown escalate acknowledge unacknowledge remove_row : ℕ → Event
  close_confirm : Switch → ℕ → Bool → Event
  close_escalate : ℕ → Option (Bool × HiveForm) → Event
  reply_fields : Reply (List Text) → Event
  reply_alerts : Bool → Reply (List Row) → Event
  reply_alert_list : Reply (List ℕ) → Event
  reply_modify reply_remove : Moment → Reply String → Event
  reply_portal_links : Reply (List Text) → Event
  reply_fork_join : ℕ → Link → Link → Reply (String × Option (List Details)) → Event

module _ (calendar : Calendar) where
  unfoldable pub handle : Event → Page → Outcome
  handle (interval now) p = tick calendar now p
  handle (refresh now) p = refresh_alerts calendar now p
  handle leave p = ng_on_destroy p
  handle auto p = toggle_auto_refresh p
  handle (type_amount now n) p = change_query_time_amount calendar now n p
  handle (select_interval now t) p = time_interval_selection_change calendar now t p
  handle (toggle_absolute now later) p = toggle_absolute_time_controls calendar now later p
  handle (pick_dates now start end) p = date_time_change calendar now start end p
  handle (set_acknowledged now b) p = filter_acknowledged calendar now b p
  handle (set_escalated now b) p = filter_escalated calendar now b p
  handle (set_show_closed now b) p = filter_closed_alerts calendar now b p
  handle (add_chip now t) p = add_alert_chip calendar now t p
  handle (remove_chip now t) p = remove_alert_chip calendar now t p
  handle (select_chip now t) p = autocomplete_selection_chip calendar now t p
  handle (kibana r) p = open_alert_in_kibana_tab r p
  handle (arkime r) p = open_alert_in_arkime_tab r p
  handle (hive r) p = open_alert_in_hive_tab r p
  handle (drilldown r) p = open_alert_drilldown_dialog r p
  handle (escalate r) p = escalate_alert r p
  handle (acknowledge r) p = acknowledge_event r p
  handle (unacknowledge r) p = unacknowledged_event r p
  handle (remove_row r) p = remove_alerts_confirm_dialog r p
  handle (close_confirm switch r confirmed) p = confirm_closed switch r confirmed p
  handle (close_escalate r response) p = escalate_closed r response p
  handle (reply_fields r) p = replied_get_fields r p
  handle (reply_alerts display r) p = replied_get_alerts display r p
  handle (reply_alert_list r) p = replied_get_alert_list r p
  handle (reply_modify now r) p = replied_modify_alert calendar now r p
  handle (reply_remove now r) p = replied_remove_alerts calendar now r p
  handle (reply_portal_links r) p = replied_get_portal_links r p
  handle (reply_fork_join r kibana_link arkime_link reply) p =
      replied_fork_join r kibana_link arkime_link reply p

  unfoldable pub run : List Event → Page → Page
  run [] p = p
  run (e ∷ es) p = run es (handle e p).0
