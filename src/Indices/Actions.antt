-- ===== src/Indices/Actions.antt =====
-- The actions of elasticsearch-index-management.component.ts, of which the page enables the backup
-- by what it hears of MinIO.
use text.Mathlib.Text.{◌==◌ as str_eq}
use hellogit.Common.{
  ℕ, String, Bool, Bool-cases, inl, inr, true, false, ◌≡◌, refl, ap, ◌∙◌, none, some, List, [], ◌∷◌,
  arith, any, ◌||◌, ◌++◌,
}
use hellogit.Rest.{ok, error_message_class, http_error}
use hellogit.Indices.{
  Action, Page, Event, set_backup_option, reset_form, next, back, stepper_change, update,
  indices_return_actions, replied_get_closed_indices, replied_get_all_indices,
  replied_index_management, replied_minio_check, handle, run, ng_on_init, action_chosen,
  index_list_chosen, next_clicked, back_clicked, update_clicked, step_changed, closed_indices,
  all_indices, managed, minio_checked,
}

-- Whether the backup is disabled, and its tool tip, after an event.
unfoldable pub heard : Event → Bool × String → Bool × String
heard (minio_checked (ok r)) h = (false, "")
heard (minio_checked (error_message_class m)) h = (true, m)
heard (minio_checked http_error) h = h
heard (action_chosen a) h = h
heard (index_list_chosen l) h = h
heard next_clicked h = h
heard back_clicked h = h
heard update_clicked h = h
heard (step_changed n) h = h
heard (closed_indices r) h = h
heard (all_indices r) h = h
heard (managed r) h = h

unfoldable pub heard_all : List Event → Bool × String → Bool × String
unfolding heard
heard_all [] h = h
heard_all (e ∷ es) h = heard_all es (heard e h)

set_backup_option-absorbs :
    (d d' : Bool) (t t' : String) (actions : List Action)
    → set_backup_option d t (set_backup_option d' t' actions) ≡ set_backup_option d t actions
unfolding set_backup_option
set_backup_option-absorbs d d' t t' [] = refl
set_backup_option-absorbs d d' t t' (a ∷ others) =
    let rest = set_backup_option-absorbs d d' t t' others in
    elim (Bool-cases (str_eq a.action_value "BackupIndices")) [
      | inl e ↦ rw (e, e) refl
      | inr e ↦ rw (e, e) (ap (◌∷◌ a) rest)
    ]

next_keeps : (p : Page) → (next p).0.actions ≡ p.actions
unfolding next reset_form
next_keeps p = ground arith

stepper_change_keeps : (n : ℕ) (p : Page) → (stepper_change n p).0.actions ≡ p.actions
unfolding stepper_change
stepper_change_keeps n p = ground (arith, next_keeps p)

handle-heard :
    (e : Event) (p : Page) (h : Bool × String) (actions : List Action)
    → p.actions ≡ set_backup_option h.0 h.1 actions
    → (handle e p).0.actions ≡ set_backup_option (heard e h).0 (heard e h).1 actions
unfolding handle back update reset_form replied_get_closed_indices replied_get_all_indices
    indices_return_actions replied_index_management replied_minio_check heard
handle-heard (action_chosen a) p h actions q = q
handle-heard (index_list_chosen l) p h actions q = q
handle-heard next_clicked p h actions q = next_keeps p ∙ q
handle-heard back_clicked p h actions q = q
handle-heard update_clicked p h actions q = q
handle-heard (step_changed n) p h actions q = stepper_change_keeps n p ∙ q
handle-heard (closed_indices (ok r)) p h actions q = q
handle-heard (closed_indices (error_message_class m)) p h actions q = q
handle-heard (closed_indices http_error) p h actions q = q
handle-heard (all_indices (ok r)) p h actions q = q
handle-heard (all_indices (error_message_class m)) p h actions q = q
handle-heard (all_indices http_error) p h actions q = q
handle-heard (managed (ok none)) p h actions q = q
handle-heard (managed (ok (some m))) p h actions q = q
handle-heard (managed (error_message_class m)) p h actions q = q
handle-heard (managed http_error) p h actions q = q
handle-heard (minio_checked (ok r)) p h actions q =
    ap (set_backup_option false "") q ∙ set_backup_option-absorbs false h.0 "" h.1 actions
handle-heard (minio_checked (error_message_class m)) p h actions q =
    ap (set_backup_option true m) q ∙ set_backup_option-absorbs true h.0 m h.1 actions
handle-heard (minio_checked http_error) p h actions q = q

run-heard_all :
    (es : List Event) (p : Page) (h : Bool × String) (actions : List Action)
    → p.actions ≡ set_backup_option h.0 h.1 actions
    → (run es p).actions ≡ set_backup_option (heard_all es h).0 (heard_all es h).1 actions
unfolding run heard_all
run-heard_all [] p h actions q = q
run-heard_all (e ∷ es) p h actions q =
    run-heard_all es (handle e p).0 (heard e h) actions (handle-heard e p h actions q)

abbrev pub is_backup : Action → Bool
is_backup a = str_eq a.action_value "BackupIndices"

neither : (a b : Bool) → (a || b) ≡ false → (a ≡ false) × (b ≡ false)
neither true b h = cc
neither false b h = (refl, h)

set_backup_option_lem :
    (d : Bool) (t : String) (before : List Action) (a : Action) (after : List Action)
    → any is_backup before ≡ false
    → is_backup a ≡ true
    → set_backup_option d t (before ++ a ∷ after)
      ≡ before ++ record a { is_disabled = d; tool_tip = t } ∷ after
unfolding set_backup_option
set_backup_option_lem d t [] a after none_before h = rw h refl
set_backup_option_lem d t (b ∷ before) a after none_before h =
    let (first, others) = neither (is_backup b) (any is_backup before) none_before in
    rw first (ap (b ∷◌) (set_backup_option_lem d t before a after others h))

-- After any events on the opened page, whose first backup action stands behind some others: the
-- actions are those it had, in their places, except that this one action is enabled, without a tool
-- tip, if the last answer about MinIO that was not an error of another kind was good, is disabled
-- with the error as its tool tip if it was an ErrorMessageClass, and is disabled without a tool tip if
-- there was none.
pub run-actions :
    (es : List Event) (p : Page) (before : List Action) (backup : Action) (after : List Action)
    → p.actions ≡ before ++ backup ∷ after
    → any is_backup before ≡ false
    → is_backup backup ≡ true
    → let h = heard_all es (true, "") in
      (run es (ng_on_init p).0).actions
      ≡ before ++ record backup { is_disabled = h.0; tool_tip = h.1 } ∷ after
unfolding ng_on_init
run-actions es p before backup after e none_before is =
    let h = heard_all es (true, "") in
    run-heard_all es (ng_on_init p).0 (true, "") p.actions refl
    ∙ (ap (set_backup_option h.0 h.1) e
        ∙ set_backup_option_lem h.0 h.1 before backup after none_before is)
