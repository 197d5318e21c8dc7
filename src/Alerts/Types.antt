-- ===== src/Alerts/Types.antt =====
-- The state of SecurityAlertsComponent.
--
-- A row of the table is an object that a dialog, a request and the table share, and handlers add
-- fields to it; so rows live in a store, `objects`, and `next` is the next free address.
use hellogit.Common.{
  Text, text_eq, ℕ, suc, String, Bool, Option, none, some, List, [], ◌∷◌, if◌then◌else◌, update,
}

-- A Date: an instant in milliseconds from 1970 on, or an Invalid Date.
pub data Date : Type 0 where
  at : ℕ → Date
  invalid : Date

-- The form group. The amount is the text of its field, `24` at first; a date that is cleared is
-- null.
pub record TimeForm : Type 0 where
  pub acknowledged : Bool
  pub escalated : Bool
  pub show_closed : Bool
  pub time_interval : Text
  pub time_amount : Text
  pub start_datetime : Option Date
  pub end_datetime : Option Date
  pub absolute_time : Bool

pub record HiveForm : Type 0 where
  pub event_title : Text
  pub event_tags : Text
  pub event_severity : Text
  pub event_description : Text

-- What a field of a row holds: a text or number in its words, or what the handlers put there. The
-- form that is sent has `performEscalation` and `hiveForm` if they are set.
pub data Value : Type 0 where
  null : Value
  words : Text → Value
  flag : Bool → Value
  form : TimeForm → Option Bool → Option HiveForm → Value
  links : List Text → Value

-- The fields in their order.
abbrev pub Row : Type 0
Row = List (Text × Value)

-- `row[name]`
abbrev pub field : Text → Row → Option Value
field name [] = none
field name ((k, v) ∷ fields) = if text_eq k name then some v else field name fields

-- `row[name] = v`
abbrev pub assign : Text → Value → Row → Row
assign name v [] = (name, v) ∷ []
assign name v ((k, w) ∷ fields) =
    if text_eq k name then (k, v) ∷ fields else (k, w) ∷ assign name v fields

-- `portal_links_` is known by the dns of each.
pub record Page : Type 0 where
  pub auto_refresh : Bool
  pub dynamic_columns : List Text
  pub all_columns : List Text
  pub time_form : TimeForm
  pub all_chip_options : List Text
  pub portal_links : List Text
  pub objects : ℕ → Row
  pub next : ℕ
  pub table : List ℕ

-- `/app/discover` and `/app/security` of Kibana with page, query, and the dates; `/sessions` of
-- Arkime with expression and dates, NaN as none; a case of Hive; and the texts that stand where a link cannot be
-- made.
pub data Link : Type 0 where
  kibana_discover : Text → Text → ℕ → ℕ → Link
  kibana_security : Text → Text → Text → ℕ → ℕ → Link
  arkime_sessions : Text → Text → Option ℕ → Option ℕ → Link
  hive_case : Text → ℕ → Link
  arkime_not_installed arkime_no_field : Link

-- MODIFY_API_SWITCH and REMOVE_API_SWITCH
pub data Switch : Type 0 where
  modify remove : Switch

pub data Effect : Type 0 where
  -- columns, start and end, acknowledged, escalated, showClosed, and whether to say so
  get_alerts : Text → ℕ → ℕ → Bool → Bool → Bool → Bool → Effect
  save_cookies : List Text → TimeForm → Bool → Effect
  get_fields get_portal_links : Effect
  confirm : String → Switch → ℕ → Effect
  modify_alert remove_alerts get_alert_list : ℕ → Effect
  fork_join : ℕ → Link → Link → Effect
  open_drilldown : ℕ → Effect
  -- the dialog to escalate a row, with title, severity and the two links
  open_escalate : ℕ → Text → Text → Link → Link → Effect
  open_tab : Link → Effect
  snackbar : String → Effect
  type_error range_error : Effect

abbrev pub Outcome : Type 0
Outcome = Page × List Effect

-- What the page relies on of `Date`: `setDate`, `setHours` and `setMinutes` by so much back from an
-- instant, for any text as the amount; an Invalid Date comes of one that is no number, or too large.
pub record Calendar : Type 0 where
  pub days_back : Text → ℕ → Date
  pub hours_back : Text → ℕ → Date
  pub minutes_back : Text → ℕ → Date

-- The two readings of the clock, one after the other.
pub record Moment : Type 0 where
  pub first : ℕ
  pub second : ℕ

-- What the cookies hold, read by `JSON.parse`, if they are there; JSON has null for an Invalid Date,
-- which is not told apart here.
pub record Jar : Type 0 where
  pub time_form_group : Option TimeForm
  pub auto_refresh : Option Bool
  pub dynamic_columns : Option (List Text)

-- A new object.
abbrev pub allocate : Row → Page → Page × ℕ
allocate row p = (record p { objects = update p.objects p.next row; next = suc p.next }, p.next)

-- `row[name] = v` in the store
abbrev pub set_field : ℕ → Text → Value → Page → Page
set_field r name v p = record p { objects = update p.objects r (assign name v (p.objects r)) }
