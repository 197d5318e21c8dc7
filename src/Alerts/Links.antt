-- ===== src/Alerts/Links.antt =====
-- The links to Kibana, Arkime and Hive, and the handlers of a row that open them.
use hellogit.Common.{
  Text, codes, text_eq, includes, take, ℕ, ◌-◌, ◌/◌, Bool, true, false, not, ◌&&◌, ◌||◌, Option,
  none, some, ◌⊎◌, inl, inr, List, [], ◌∷◌, ◌++◌, if◌then◌else◌, length,
}
use hellogit.Alerts.Types.{
  Value, null, words, flag, form, links, Row, field, Page, Link, kibana_discover, kibana_security,
  arkime_sessions, arkime_not_installed, arkime_no_field, Effect, get_alert_list, fork_join,
  open_drilldown, open_tab, snackbar, type_error, range_error, Outcome, Date, at, invalid,
  set_field, confirm, modify, remove,
}

-- A value in a template string.
abbrev pub in_words : Value → Text
in_words null = codes "null"
in_words (words t) = t
in_words (flag b) = if b then codes "true" else codes "false"
in_words (form f performs hive) = codes "[object Object]"
in_words (links ls) = codes "[object Object]"

abbrev pub holds : Option Value → Text → Bool
holds none t = false
holds (some null) t = false
holds (some (words u)) t = text_eq u t
holds (some (flag b)) t = false
holds (some (form f performs hive)) t = false
holds (some (links ls)) t = false

-- COUNT_COLUMN_NAME, FORM_COLUMN_NAME and LINKS_COLUMN_NAME
abbrev pub is_own : Text → Bool
is_own name =
    text_eq name (codes "count") || text_eq name (codes "form") || text_eq name (codes "links")

abbrev pub is_signal : Row → Bool
is_signal row = holds (field (codes "event.kind") row) (codes "signal")

-- `slice(0, length - n)` of a text that is empty or has n characters at least.
abbrev pub drop_end : ℕ → Text → Text
drop_end n t = take (length t - n) t

-- The test of a field in the query of Kibana.
unfoldable pub term : Bool → Text → Value → Text
term signal name value =
    (if signal && text_eq name (codes "rule.name") then codes "signal.rule.name" else name)
    ++ (codes " : \"" ++ (in_words value ++ codes "\""))

-- The loop of `get_kibana_query_`
unfoldable pub query_loop : Bool → Row → Text → Text
unfolding term
query_loop signal [] so_far = so_far
query_loop signal ((name, value) ∷ fields) so_far =
    query_loop signal fields
      (if is_own name then so_far else so_far ++ (term signal name value ++ codes " and "))

-- `get_kibana_query_`, with `escalated` of the form
unfoldable pub get_kibana_query : Bool → Row → Text
unfolding query_loop
get_kibana_query escalated row =
    let terms = drop_end 5 (query_loop (is_signal row) row []) in
    if escalated then terms ++ codes " and event.escalated : true" else terms

-- `get_link_`: the last that includes the text.
unfoldable pub get_link : Text → List Text → Text → Text
get_link search [] link = link
get_link search (dns ∷ others) link =
    get_link search others (if includes search dns then dns else link)

-- `get_kibana_link_` with the form's dates, or what `toISOString` throws.
unfoldable pub kibana_link : Page → Row → Option Date → Option Date → Link ⊎ Effect
unfolding get_link get_kibana_query
kibana_link p row none _ = inr type_error
kibana_link p row (some invalid) _ = inr range_error
kibana_link p row (some (at start)) none = inr type_error
kibana_link p row (some (at start)) (some invalid) = inr range_error
kibana_link p row (some (at start)) (some (at end)) =
    let prefix = get_link (codes "kibana") p.portal_links [] in
    let query = get_kibana_query p.time_form.escalated row in
    let kind = field (codes "event.kind") row in
    let module_is = λ (name : Text). holds (field (codes "event.module") row) name in
    if holds kind (codes "signal")
    then inl (kibana_security prefix (codes "detections") query start end)
    else if not (holds kind (codes "alert"))
    then inl (kibana_security prefix (codes "overview") query start end)
    else if module_is (codes "zeek") || module_is (codes "suricata")
    then inl (kibana_security prefix (codes "network/external-alerts") query start end)
    else if module_is (codes "endgame")
    then inl (kibana_discover prefix query start end)
    else if module_is (codes "system") || module_is (codes "sysmon")
    then inl (kibana_security prefix (codes "hosts/alerts") query start end)
    else inl (kibana_security prefix (codes "overview") query start end)

unfoldable pub get_kibana_link : Page → Row → Link ⊎ Effect
unfolding kibana_link
get_kibana_link p row = kibana_link p row p.time_form.start_datetime p.time_form.end_datetime

-- ARKIME_FIELD_LOOKUP
abbrev pub arkime_field : Text → Option Text
arkime_field name =
    if text_eq name (codes "source.address") || text_eq name (codes "source.ip")
    then some (codes "ip.src")
    else if text_eq name (codes "source.port")
    then some (codes "port.src")
    else if text_eq name (codes "destination.port")
    then some (codes "port.dst")
    else if text_eq name (codes "destination.address") || text_eq name (codes "destination.ip")
    then some (codes "ip.dst")
    else none

-- What a field adds to the expression of Arkime: nothing if Arkime does not know it or it is null.
abbrev pub arkime_test : Option Text → Value → Option Text
arkime_test none v = none
arkime_test (some name) null = none
arkime_test (some name) (words t) = some (name ++ (codes "%20%3D%3D" ++ t))
arkime_test (some name) (flag b) = some (name ++ (codes "%20%3D%3D" ++ in_words (flag b)))
arkime_test (some name) (form f performs hive) =
    some (name ++ (codes "%20%3D%3D" ++ codes "[object Object]"))
arkime_test (some name) (links ls) = some (name ++ (codes "%20%3D%3D" ++ codes "[object Object]"))

abbrev pub add_test : Text → Option Text → Text
add_test so_far none = so_far
add_test so_far (some test) = so_far ++ (test ++ codes "%26%26%20")

-- The loop of `build_arkime_expression_` over `get_fields_`
unfoldable pub arkime_loop : Row → Text → Text
arkime_loop [] so_far = so_far
arkime_loop ((name, value) ∷ fields) so_far =
    arkime_loop fields
      (if is_own name then so_far else add_test so_far (arkime_test (arkime_field name) value))

unfoldable pub build_arkime_expression : Row → Text
unfolding arkime_loop
build_arkime_expression row = drop_end 9 (arkime_loop row [])

abbrev pub is_blank : Text → Bool
is_blank [] = true
is_blank (c ∷ cs) = false

-- `Math.floor(date.getTime() / 1000)`, NaN as none
abbrev seconds : Date → Option ℕ
seconds (at t) = some (t / 1000)
seconds invalid = none

-- `get_arkime_link_`, or what it throws where a date is null
unfoldable pub arkime_link : Text → Text → Option Date → Option Date → Link ⊎ Effect
arkime_link prefix expression start end =
    if is_blank prefix
    then inl arkime_not_installed
    else if is_blank expression
    then inl arkime_no_field
    else elim start [
      | none ↦ inr type_error
      | some s ↦ elim end [
        | none ↦ inr type_error
        | some e ↦ inl (arkime_sessions prefix expression (seconds s) (seconds e))
      ]
    ]

abbrev open_or_throw : Link ⊎ Effect → List Effect
open_or_throw (inr e) = e ∷ []
open_or_throw (inl link) = open_tab link ∷ []

unfoldable pub open_alert_in_kibana_tab : ℕ → Page → Outcome
unfolding get_kibana_link
open_alert_in_kibana_tab r p = (p, open_or_throw (get_kibana_link p (p.objects r)))

unfoldable pub open_alert_in_arkime_tab : ℕ → Page → Outcome
unfolding get_link build_arkime_expression arkime_link
open_alert_in_arkime_tab r p =
    let prefix = get_link (codes "arkime") p.portal_links [] in
    let expression = build_arkime_expression (p.objects r) in
    (
      p,
      if is_blank prefix
          then snackbar
              "Arkime is not installed. Please go to the catalog page and install it if you want this capability to work."
            ∷ []
          else if is_blank expression
          then snackbar
              "Failed to pivot to Arkime because you need one of the following Group By fields: source.address, source.ip, source.port, destination.port, destination.address, destination.ip"
            ∷ []
          else open_or_throw
              (arkime_link prefix expression p.time_form.start_datetime p.time_form.end_datetime),
    )

-- `row['form'] = …; row['links'] = …`
abbrev pub attach : ℕ → Page → Page
attach r p =
    set_field r (codes "links") (links p.portal_links)
      (set_field r (codes "form") (form p.time_form none none) p)

unfoldable pub open_alert_in_hive_tab : ℕ → Page → Outcome
open_alert_in_hive_tab r p = (attach r p, get_alert_list r ∷ [])

unfoldable pub open_alert_drilldown_dialog : ℕ → Page → Outcome
open_alert_drilldown_dialog r p = (attach r p, open_drilldown r ∷ [])

abbrev ask_hive : ℕ → Link ⊎ Effect → Link ⊎ Effect → List Effect
ask_hive r (inr e) _ = e ∷ []
ask_hive r (inl kibana) (inr e) = e ∷ []
ask_hive r (inl kibana) (inl arkime) = fork_join r kibana arkime ∷ []

unfoldable pub escalate_alert : ℕ → Page → Outcome
unfolding get_kibana_link get_link build_arkime_expression arkime_link
escalate_alert r p =
    let q = attach r (set_field r (codes "event.escalated") (flag true) p) in
    let row = q.objects r in
    let arkime =
      arkime_link (get_link (codes "arkime") q.portal_links []) (build_arkime_expression row)
        q.time_form.start_datetime q.time_form.end_datetime in
    (q, ask_hive r (get_kibana_link q row) arkime)

unfoldable pub acknowledge_event : ℕ → Page → Outcome
acknowledge_event r p = (p, confirm "Acknowledge Alerts" modify r ∷ [])

unfoldable pub unacknowledged_event : ℕ → Page → Outcome
unacknowledged_event r p = (p, confirm "Unacknowledged Alerts" modify r ∷ [])

unfoldable pub remove_alerts_confirm_dialog : ℕ → Page → Outcome
remove_alerts_confirm_dialog r p = (p, confirm "Remove Alerts" remove r ∷ [])
