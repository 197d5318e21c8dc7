-- ===== src/Alerts/Tests.antt =====
-- A visit of the page, and the theorems at it.
use hellogit.Common.{
  ◌⊎◌, codes, trim_start, trim_end, is_space, join_with, ◌≡◌, refl, ◌-◌, ◌*◌, true, false, none,
  some, List, [], ◌∷◌, ◌++◌, map, keep, not, ℕ, Text, every, leb, ◌&&◌, if◌then◌else◌,
}
use hellogit.Rest.{ok}
use hellogit.Subnet.{number}
use hellogit.Alerts.Types.{
  Date, at, invalid, range_error, HiveForm, words, flag, Row, field, Page, Calendar, Moment, Jar,
}
use hellogit.Alerts.Actions.{
  or_epoch, opened, ng_on_destroy, update_alerts_table, initialize_time_form_group,
  get_auto_refresh, get_dynamic_columns, add_alert_chip, autocomplete_selection_chip,
  filter_acknowledged, filter_escalated, remove_alert_chip, remove_columns, set_date_times,
  change_query_time_amount, ask,
}
use hellogit.Alerts.Links.{
  is_own, is_signal, term, get_kibana_query, build_arkime_expression, escalate_alert,
}
use hellogit.Alerts.Replies.{escalate_closed, replied_get_alerts, replied_get_fields, allocate_all}
use hellogit.Alerts.Events
use hellogit.Alerts.Columns.{WellFormed}
use hellogit.Alerts.Columns.Runs.{run-WellFormed}
use hellogit.Alerts.Queries.{get_kibana_query_lem}
use hellogit.Alerts.Visits.{
  jar_after, without_dates, opened-ng_on_destroy, escalate_closed-cancelled,
}

-- An amount of digits, in units of a fixed length; others give an Invalid Date.
abbrev back_by : ℕ → Text → ℕ → Date
back_by unit amount t =
    if every (λ d. leb 48 d && leb d 57) amount then at (t - number amount * unit) else invalid

-- Days and hours of a fixed length.
abbrev plain : Calendar
plain = record {
  days_back = back_by 86400000;
  hours_back = back_by 3600000;
  minutes_back = back_by 60000;
}

abbrev noon : Moment
noon = record { first = 1700000000000; second = 1700000000001 }

abbrev first_visit : Jar
first_visit = record { time_form_group = none; auto_refresh = none; dynamic_columns = none }

abbrev alert_row : Row
alert_row =
    (codes "count", words (codes "7"))
    ∷ (codes "event.kind", words (codes "alert"))
    ∷ (codes "source.ip", words (codes "10.0.0.1"))
    ∷ []

abbrev visit : List Events.Event
visit =
    Events.reply_fields (ok (codes "source.ip" ∷ codes "event.kind" ∷ []))
    ∷ Events.reply_alerts false (ok (alert_row ∷ []))
    ∷ Events.add_chip noon (codes " source.ip ")
    ∷ Events.select_chip noon (codes "source.port")
    ∷ Events.remove_chip noon (codes "event.module")
    ∷ Events.set_acknowledged noon true
    ∷ Events.set_escalated noon true
    ∷ []

abbrev seen : Page
seen = Events.run plain visit (opened plain noon first_visit).0

abbrev hive_form : HiveForm
hive_form = record {
  event_title = codes "t";
  event_tags = [];
  event_severity = codes "2";
  event_description = [];
}

visited :
    (seen.dynamic_columns
      ≡ codes "event.kind" ∷ codes "rule.name" ∷ codes "source.ip" ∷ codes "source.port" ∷ [])
    × (seen.time_form.acknowledged ≡ false)
    × (seen.time_form.escalated ≡ true)
unfolding Events.run Events.handle opened update_alerts_table initialize_time_form_group
    get_auto_refresh get_dynamic_columns add_alert_chip autocomplete_selection_chip
    filter_acknowledged filter_escalated remove_alert_chip remove_columns replied_get_alerts
    replied_get_fields allocate_all set_date_times trim_start trim_end is_space
visited = (refl, refl, refl)

kibana_text :
    get_kibana_query true alert_row
    ≡ codes "event.kind : \"alert\" and source.ip : \"10.0.0.1\" and event.escalated : true"
unfolding get_kibana_query
kibana_text = refl

arkime_text : build_arkime_expression alert_row ≡ codes "ip.src%20%3D%3D10.0.0.1"
unfolding build_arkime_expression
arkime_text = refl

run-WellFormed_example : WellFormed seen
run-WellFormed_example =
    run-WellFormed plain visit noon first_visit tt (refl, (tt, (tt, (refl, (tt, (tt, (tt, tt)))))))

-- An amount that is no number: nothing is asked, and the form has an Invalid Date.
amount_typed :
    let o = Events.handle plain (Events.type_amount noon (codes "abc")) seen in
    (o.1 ≡ range_error ∷ []) × (o.0.time_form.start_datetime ≡ some invalid)
unfolding Events.run Events.handle opened update_alerts_table initialize_time_form_group
    get_auto_refresh get_dynamic_columns add_alert_chip autocomplete_selection_chip
    filter_acknowledged filter_escalated remove_alert_chip remove_columns replied_get_alerts
    replied_get_fields allocate_all set_date_times trim_start trim_end is_space
    change_query_time_amount ask
amount_typed = (refl, refl)

get_kibana_query_lem_example :
    get_kibana_query true alert_row
    ≡ join_with
        (codes " and ")
        (map (λ f. term (is_signal alert_row) f.0 f.1) (keep (λ f. not (is_own f.0)) alert_row))
      ++ codes " and event.escalated : true"
get_kibana_query_lem_example = get_kibana_query_lem true alert_row

opened-ng_on_destroy_example :
    let q = (opened plain noon (jar_after first_visit (ng_on_destroy seen).1)).0 in
    (q.dynamic_columns ≡ seen.dynamic_columns)
    × (q.auto_refresh ≡ seen.auto_refresh)
    × (without_dates q.time_form ≡ without_dates seen.time_form)
    × ((seen.time_form.absolute_time ≡ false)
        ⊎ ((q.time_form.start_datetime ≡ or_epoch seen.time_form.start_datetime)
            × (q.time_form.end_datetime ≡ or_epoch seen.time_form.end_datetime)))
opened-ng_on_destroy_example = opened-ng_on_destroy plain noon first_visit seen

escalate_closed-cancelled_example :
    let o = escalate_closed 0 (some (false, hive_form)) (escalate_alert 0 seen).0 in
    (o.1 ≡ []) × (field (codes "event.escalated") (o.0.objects 0) ≡ some (flag true))
escalate_closed-cancelled_example = escalate_closed-cancelled 0 seen (some (false, hive_form)) refl
