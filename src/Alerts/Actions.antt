-- ===== src/Alerts/Actions.antt =====
-- The handlers of the toggles, the chips and the dates.
use hellogit.Common.{
  Text, codes, text_eq, trim, is_empty, starts_with, join_with, ℕ, suc, Bool, true, false, not,
  ◌&&◌, ◌||◌, Option, none, some, List, [], ◌∷◌, ◌++◌, if◌then◌else◌, any, keep, find_index,
  remove_at, leb,
}
use hellogit.Alerts.Types.{
  Date, at, invalid, TimeForm, Page, Effect, get_alerts, save_cookies, get_fields, get_portal_links,
  snackbar, type_error, range_error, Outcome, Calendar, Moment, Jar, Row,
}

-- ALL_COLUMNS_START_VALUES and DYNAMIC_COLUMNS_DEFAULT_VALUES
abbrev pub actions_column : Text
actions_column = codes "actions"

abbrev pub count_column : Text
count_column = codes "count"

abbrev pub dynamic_columns_default : List Text
dynamic_columns_default = codes "event.module" ∷ codes "event.kind" ∷ codes "rule.name" ∷ []

abbrev pub member : Text → List Text → Bool
member t ts = any (text_eq t) ts

-- `initialize_time_form_group_`: a date that was null comes back as the epoch, and so does an Invalid
-- Date, for which the cookie has null.
abbrev pub or_epoch : Option Date → Option Date
or_epoch none = some (at 0)
or_epoch (some invalid) = some (at 0)
or_epoch (some (at t)) = some (at t)

unfoldable pub initialize_time_form_group : Option TimeForm → TimeForm
initialize_time_form_group none = record {
  acknowledged = false;
  escalated = false;
  show_closed = false;
  time_interval = codes "hours";
  time_amount = codes "24";
  start_datetime = none;
  end_datetime = none;
  absolute_time = false;
}
initialize_time_form_group (some f) = record f {
  start_datetime = or_epoch f.start_datetime;
  end_datetime = or_epoch f.end_datetime;
}

-- `get_auto_refresh_` and `get_dynamic_columns_`. The default columns are those of the constants as
-- the application starts.
unfoldable pub get_auto_refresh : Option Bool → Bool
get_auto_refresh none = true
get_auto_refresh (some b) = b

unfoldable pub get_dynamic_columns : Option (List Text) → List Text
get_dynamic_columns none = dynamic_columns_default
get_dynamic_columns (some columns) = columns

-- `set_date_times_`
unfoldable pub set_date_times : Calendar → Moment → TimeForm → TimeForm
set_date_times calendar now f =
    let back = f.time_amount in
    let start =
      if text_eq f.time_interval (codes "days")
      then calendar.days_back back now.first
      else if text_eq f.time_interval (codes "hours")
      then calendar.hours_back back now.first
      else if text_eq f.time_interval (codes "minutes")
      then calendar.minutes_back back now.first
      else at now.first in
    record f { start_datetime = some start; end_datetime = some (at now.second) }

-- `api_get_alerts_` and `save_cookies_`, with the dates: `toISOString` of null throws a TypeError, and
-- of an Invalid Date a RangeError.
unfoldable pub ask : Bool → Page → Option Date → Option Date → List Effect
ask display p none _ = type_error ∷ []
ask display p (some invalid) _ = range_error ∷ []
ask display p (some (at start)) none = type_error ∷ []
ask display p (some (at start)) (some invalid) = range_error ∷ []
ask display p (some (at start)) (some (at end)) =
    get_alerts (join_with (codes ",") p.dynamic_columns) start end p.time_form.acknowledged
      p.time_form.escalated p.time_form.show_closed display
    ∷ save_cookies p.dynamic_columns p.time_form p.auto_refresh
    ∷ []

abbrev pub no_columns : List Text → Bool
no_columns [] = true
no_columns (c ∷ cs) = false

-- `update_alerts_table_`
unfoldable pub update_alerts_table : Calendar → Moment → Bool → Page → Outcome
unfolding set_date_times
update_alerts_table calendar now display p =
    if no_columns p.dynamic_columns
    then (record p { table = [] }, [])
    else let f =
        if p.time_form.absolute_time
        then p.time_form
        else set_date_times calendar now p.time_form in
      let q = record p { time_form = f } in (q, ask display q f.start_datetime f.end_datetime)

abbrev blank : ℕ → Row
blank _ = []

-- The constructor and `ngOnInit`.
unfoldable pub opened : Calendar → Moment → Jar → Outcome
unfolding initialize_time_form_group get_auto_refresh get_dynamic_columns
opened calendar now jar =
    let columns = get_dynamic_columns jar.dynamic_columns in
    let p : Page = record {
      auto_refresh = get_auto_refresh jar.auto_refresh;
      dynamic_columns = columns;
      all_columns = actions_column ∷ count_column ∷ columns;
      time_form = initialize_time_form_group jar.time_form_group;
      all_chip_options = [];
      portal_links = [];
      objects = blank;
      next = 0;
      table = [];
    } in
    let (q, effects) = update_alerts_table calendar now false p in
    (q, effects ++ (get_fields ∷ get_portal_links ∷ []))

-- The interval of `ngOnInit`
unfoldable pub tick : Calendar → Moment → Page → Outcome
tick calendar now p = if p.auto_refresh then update_alerts_table calendar now false p else (p, [])

unfoldable pub ng_on_destroy : Page → Outcome
ng_on_destroy p = (p, save_cookies p.dynamic_columns p.time_form p.auto_refresh ∷ [])

unfoldable pub toggle_auto_refresh : Page → Outcome
toggle_auto_refresh p = (record p { auto_refresh = not p.auto_refresh }, [])

unfoldable pub refresh_alerts : Calendar → Moment → Page → Outcome
refresh_alerts calendar now p = update_alerts_table calendar now true p

-- The control has the text that was typed, which is any text.
unfoldable pub change_query_time_amount : Calendar → Moment → Text → Page → Outcome
change_query_time_amount calendar now [] p =
    (record p { time_form = record (p.time_form) { time_amount = [] } }, [])
change_query_time_amount calendar now (c ∷ cs) p =
    update_alerts_table calendar now false
      (record p { time_form = record (p.time_form) { time_amount = c ∷ cs } })

unfoldable pub time_interval_selection_change : Calendar → Moment → Text → Page → Outcome
time_interval_selection_change calendar now interval p =
    update_alerts_table calendar now false
      (record p { time_form = record (p.time_form) { time_interval = interval } })

unfoldable pub toggle_absolute_time_controls : Calendar → Moment → Moment → Page → Outcome
unfolding set_date_times
toggle_absolute_time_controls calendar now later p =
    let f =
      set_date_times calendar now
        (record (p.time_form) { absolute_time = not p.time_form.absolute_time }) in
    update_alerts_table calendar later false (record p { time_form = f })

-- The number that `>=` takes of a date: null counts as 0, and NaN is none.
abbrev time_of : Option Date → Option ℕ
time_of none = some 0
time_of (some (at t)) = some t
time_of (some invalid) = none

-- `validate_date_times_`: not `start >= end`, which is false of NaN.
abbrev less_or_nan : Option ℕ → Option ℕ → Bool
less_or_nan none _ = true
less_or_nan (some s) none = true
less_or_nan (some s) (some e) = leb (suc s) e

abbrev pub ordered : Option Date → Option Date → Bool
ordered start end = less_or_nan (time_of start) (time_of end)

-- The dates that were picked, and `date_time_change`.
unfoldable pub date_time_change : Calendar → Moment → Option Date → Option Date → Page → Outcome
date_time_change calendar now start end p =
    let p' = record p {
      time_form = record (p.time_form) { start_datetime = start; end_datetime = end };
    } in
    let (q, effects) = update_alerts_table calendar now false p' in
    (
      q,
      (if ordered start end
            then []
            else snackbar
                "Zero results returned because start datetime cannot be larger than end datetime."
              ∷ [])
          ++ effects,
    )

-- The toggles are bound to the form, so the control has the value already.
unfoldable pub filter_acknowledged : Calendar → Moment → Bool → Page → Outcome
filter_acknowledged calendar now checked p =
    let f = p.time_form in
    update_alerts_table calendar now false (record p {
      time_form = record f {
        acknowledged = checked;
        escalated = if checked then false else f.escalated;
        show_closed = false;
      };
    })

unfoldable pub filter_escalated : Calendar → Moment → Bool → Page → Outcome
filter_escalated calendar now checked p =
    let f = p.time_form in
    update_alerts_table calendar now false (record p {
      time_form = record f {
        acknowledged = if checked then false else f.acknowledged;
        escalated = checked;
        show_closed = false;
      };
    })

unfoldable pub filter_closed_alerts : Calendar → Moment → Bool → Page → Outcome
filter_closed_alerts calendar now checked p =
    update_alerts_table calendar now false
      (record p { time_form = record (p.time_form) { show_closed = checked } })

-- A column at the end of both arrays.
abbrev pub push_column : Text → Page → Page
push_column value p = record p {
  dynamic_columns = p.dynamic_columns ++ value ∷ [];
  all_columns = p.all_columns ++ value ∷ [];
}

unfoldable pub add_alert_chip : Calendar → Moment → Text → Page → Outcome
add_alert_chip calendar now typed p =
    let value = trim typed in
    if not (is_empty value)
      && member value p.all_chip_options
      && not (member value p.dynamic_columns)
    then update_alerts_table calendar now false (push_column value p)
    else (p, [])

unfoldable pub autocomplete_selection_chip : Calendar → Moment → Text → Page → Outcome
autocomplete_selection_chip calendar now value p =
    if member value p.dynamic_columns
    then (p, [])
    else update_alerts_table calendar now false (push_column value p)

-- The two places found, or none.
unfoldable pub remove_columns : Calendar → Moment → Option ℕ → Option ℕ → Page → Outcome
remove_columns calendar now none _ p = (p, [])
remove_columns calendar now (some i) none p = (p, [])
remove_columns calendar now (some i) (some j) p = update_alerts_table calendar now false (record p {
  dynamic_columns = remove_at i p.dynamic_columns;
  all_columns = remove_at j p.all_columns;
})

unfoldable pub remove_alert_chip : Calendar → Moment → Text → Page → Outcome
unfolding remove_columns
remove_alert_chip calendar now name p =
    remove_columns calendar now (find_index (text_eq name) p.dynamic_columns)
      (find_index (text_eq name) p.all_columns) p

-- `filter_chip_options_`, with `toLowerCase` as a parameter.
unfoldable pub filter_chip_options : (Text → Text) → Text → Page → List Text
filter_chip_options to_lower_case value p =
    keep (λ option. starts_with (to_lower_case value) (to_lower_case option)) p.all_chip_options

unfoldable pub is_dynamic_column_name : Text → Bool
is_dynamic_column_name name = not (text_eq name actions_column || text_eq name count_column)
