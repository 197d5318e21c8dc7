-- ===== src/Alerts/Visits.antt =====
-- What one visit of the page leaves for the next, and for the row that it would have escalated.
use hellogit.Common.{
  ◌⊎◌, Text, codes, text_eq, text_eq_refl, text_eq-eq, subst, sym, update_self, ℕ, ◌≡◌, refl, ap,
  ◌∙◌, inl, inr, Bool, true, false, Option, none, some, List, [], ◌∷◌, arith, Bool-cases,
}
use hellogit.Alerts.Types.{
  TimeForm, HiveForm, Value, flag, form, links, Row, field, assign, Page, Effect, save_cookies,
  Calendar, Moment, Jar, set_field,
}
use hellogit.Alerts.Actions.{
  or_epoch, set_date_times, no_columns, initialize_time_form_group, get_auto_refresh,
  get_dynamic_columns, update_alerts_table, opened, ng_on_destroy,
}
use hellogit.Alerts.Links.{escalate_alert, attach}
use hellogit.Alerts.Replies.{escalate_closed}

-- The cookies after effects: what was saved last.
abbrev pub jar_after : Jar → List Effect → Jar
jar_after jar [] = jar
jar_after jar (save_cookies columns f auto ∷ es) =
    jar_after
      (record {
        time_form_group = some f;
        auto_refresh = some auto;
        dynamic_columns = some columns;
      })
      es
jar_after jar (e ∷ es) = jar_after jar es

abbrev pub without_dates : TimeForm → TimeForm
without_dates f = record f { start_datetime = none; end_datetime = none }

module _ (calendar : Calendar) where
  update_auto :
      (now : Moment) (display : Bool) (p : Page)
      → let q = (update_alerts_table calendar now display p).0 in
        (q.auto_refresh ≡ p.auto_refresh) × (q.dynamic_columns ≡ p.dynamic_columns)
  unfolding update_alerts_table
  update_auto now display p = ground arith

  update_form :
      (now : Moment) (display : Bool) (p : Page)
      → let f = (update_alerts_table calendar now display p).0.time_form in
        (without_dates f ≡ without_dates p.time_form)
        × ((p.time_form.absolute_time ≡ false) ⊎ (f ≡ p.time_form))
  unfolding update_alerts_table set_date_times
  update_form now display p = elim (Bool-cases (no_columns p.dynamic_columns)) [
    | inl e ↦ rw e (refl, inr refl)
    | inr e ↦ elim (Bool-cases p.time_form.absolute_time) [
      | inl h ↦ rw (e, h) (refl, inr refl)
      | inr h ↦ rw (e, h) (refl, inl refl)
    ]
  ]

  -- The page that is left and opened again has the columns and the refreshing that it had, and its
  -- form but for the dates. If those are absolute they are as before too, except that a date that
  -- was null or an Invalid Date is the epoch.
  pub opened-ng_on_destroy :
      (now : Moment) (jar : Jar) (p : Page)
      → let q = (opened calendar now (jar_after jar (ng_on_destroy p).1)).0 in
        (q.dynamic_columns ≡ p.dynamic_columns)
        × (q.auto_refresh ≡ p.auto_refresh)
        × (without_dates q.time_form ≡ without_dates p.time_form)
        × ((p.time_form.absolute_time ≡ false)
            ⊎ ((q.time_form.start_datetime ≡ or_epoch p.time_form.start_datetime)
                × (q.time_form.end_datetime ≡ or_epoch p.time_form.end_datetime)))
  unfolding opened ng_on_destroy initialize_time_form_group get_auto_refresh get_dynamic_columns
  opened-ng_on_destroy now jar p =
      let (a, d) = update_auto now false _ in
      let (w, f) = update_form now false _ in
      (
        d,
        a,
        w,
        elim f [
          | inl h ↦ inl h
          | inr e ↦
              inr
                (ap (λ (x : TimeForm). x.start_datetime) e, ap (λ (x : TimeForm). x.end_datetime) e)
        ],
      )

field-assign : (name : Text) (v : Value) (row : Row) → field name (assign name v row) ≡ some v
field-assign name v [] = rw (text_eq_refl name) refl
field-assign name v ((k, w) ∷ fields) = elim (Bool-cases (text_eq k name)) [
  | inl e ↦ rw (e, e) refl
  | inr e ↦ rw (e, e) (field-assign name v fields)
]

field-assign_other :
    (name other : Text) (v : Value) (row : Row)
    → text_eq other name ≡ false
    → field name (assign other v row) ≡ field name row
field-assign_other name other v [] h = rw h refl
field-assign_other name other v ((k, w) ∷ fields) h = elim (Bool-cases (text_eq k other)) [
  | inl e ↦
      let n = subst (λ u. text_eq u name ≡ false) (sym (text_eq-eq k other e)) h in rw (e, n) refl
  | inr e ↦ elim (Bool-cases (text_eq k name)) [
    | inl m ↦ rw (e, m) refl
    | inr m ↦ rw (e, m) (field-assign_other name other v fields h)
  ]
]

-- A field of a row in the store after `row[other] = v`
field-set_field :
    (r : ℕ) (name other : Text) (v : Value) (p : Page)
    → text_eq other name ≡ false
    → field name ((set_field r other v p).objects r) ≡ field name (p.objects r)
field-set_field r name other v p h =
    ap (field name) (update_self p.objects r (assign other v (p.objects r)))
    ∙ field-assign_other name other v (p.objects r) h

attach_lem :
    (r : ℕ) (p : Page)
    → field (codes "event.escalated") ((attach r p).objects r)
      ≡ field (codes "event.escalated") (p.objects r)
attach_lem r p =
    let name = codes "event.escalated" in
    let q = set_field r (codes "form") (form p.time_form none none) p in
    field-set_field r name (codes "links") (links p.portal_links) q refl
    ∙ field-set_field r name (codes "form") (form p.time_form none none) p refl

-- The dialog was left without a form that is valid.
abbrev pub IsCancelled : Option (Bool × HiveForm) → Type 0
IsCancelled none = Unit
IsCancelled (some (valid, hive)) = valid ≡ false

cancel_lem :
    (r : ℕ) (response : Option (Bool × HiveForm)) (q : Page)
    → IsCancelled response
    → escalate_closed r response q ≡ (q, [])
unfolding escalate_closed
cancel_lem r none q c = refl
cancel_lem r (some (true, hive)) q c = cc
cancel_lem r (some (false, hive)) q c = refl

-- A row that was to be escalated, where the dialog is then left: nothing is sent, but the row says
-- from now on that the alert is escalated.
pub escalate_closed-cancelled :
    (r : ℕ) (p : Page) (response : Option (Bool × HiveForm))
    → IsCancelled response
    → let o = escalate_closed r response (escalate_alert r p).0 in
      (o.1 ≡ []) × (field (codes "event.escalated") (o.0.objects r) ≡ some (flag true))
unfolding escalate_alert
escalate_closed-cancelled r p response c =
    let name = codes "event.escalated" in
    let q = set_field r name (flag true) p in
    rw (cancel_lem r response _ c) (
      refl,
      attach_lem r q
          ∙ (ap (field name) (update_self p.objects r (assign name (flag true) (p.objects r)))
              ∙ field-assign name (flag true) (p.objects r)),
    )
