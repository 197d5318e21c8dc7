-- ===== src/Alerts/Asks.antt =====
-- When the page asks the server for the alerts.
use text.Mathlib.Text.{◌==◌ as str_eq}
use hellogit.Common.{◌≡◌, refl, ◌⊎◌, inl, inr, Bool, true, List, [], ◌++◌, Bool-cases}
use hellogit.Alerts.Types.{Page, Effect, Outcome, Calendar, Moment}
use hellogit.Alerts.Actions.{no_columns, ask, update_alerts_table}
use hellogit.Alerts.Events

-- The page after a handler has the columns and the form that it had; or it has no columns, and shows
-- no alerts; or the last that the handler did was to ask for the alerts that match its columns and
-- its form, which throws where a date of the form is null or an Invalid Date.
abbrev pub Settled : Page → Outcome → Type 0
Settled p o =
    ((o.0.dynamic_columns ≡ p.dynamic_columns) × (o.0.time_form ≡ p.time_form))
    ⊎ (((no_columns o.0.dynamic_columns ≡ true) × (o.0.table ≡ []))
        ⊎ ((before : List Effect) × (display : Bool) × (o.1
              ≡ before ++ ask display o.0 o.0.time_form.start_datetime o.0.time_form.end_datetime)))

module _ (calendar : Calendar) where
  updated :
      (p : Page) (now : Moment) (display : Bool) (q : Page) (before : List Effect)
      → let o = update_alerts_table calendar now display q in Settled p (o.0, before ++ o.1)
  unfolding update_alerts_table
  updated p now display q before = elim (Bool-cases (no_columns q.dynamic_columns)) [
    | inl e ↦ rw e (inr (inl (e, refl)))
    | inr e ↦ rw e (inr (inr (before, display, refl)))
  ]

  -- The field of the amount of time is not cleared; it has any other text.
  abbrev pub HasAmount : Events.Event → Type 0
  HasAmount (Events.type_amount now []) = ⊥
  HasAmount _ = Unit
