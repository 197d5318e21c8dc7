-- ===== src/Notifications/Lists.antt =====
-- Every button lists notifications of its own role.
use text.Mathlib.Text.{◌==◌}
use text.Mathlib.TextEquality.{eq_iff}
use hellogit.Common.{
  All-snoc, ℕ, suc, ◌≡◌, ◌⊎◌, inl, inr, String, Bool, true, false, Option, none, some, List, [],
  ◌∷◌, ◌++◌, map, keep, All, arith, Bool-cases, if◌then◌else◌, not,
}
use hellogit.Rest.{ok}
use hellogit.Notifications.Buttons.{
  Notification, Button, Clock, stamped, matches_button, add_to_button, add_notification,
  add_notifications,
}
use hellogit.Notifications.Events.{
  Dialog, Notifier, Event, open_window, select, scroll, broadcast, reply_all, reply_page,
  reply_delete, reply_delete_all, select_loop, button_select, open_dialog, dialog_closed, scrolled,
  replied_get_notifications, replied_get_all, on_broadcast, replied_delete, delete_all_closed,
  replied_delete_all, handle, run, constructed,
}

abbrev Fits : String → Notification → Type 0
Fits role n = (role ≡ n.role) ⊎ (role ≡ "all")

abbrev pub HoldsOwn : Button → Type 0
HoldsOwn b = All (Fits b.role) b.notifications

abbrev pub AllHoldOwn : List Button → Type 0
AllHoldOwn = All HoldsOwn

matches-Fits : (n : Notification) (b : Button) → matches_button n b ≡ true → Fits b.role n
matches-Fits n b h = elim (Bool-cases (b.role == n.role)) [
  | inl e ↦ inl ((eq_iff _ _).0 e)
  | inr e ↦ inr ((eq_iff _ _).0 (ground arith))
]

All-keep :
    (P : Notification → Type 0) (f : Notification → Bool) (ns : List Notification)
    → All P ns
    → All P (keep f ns)
All-keep P f [] h = tt
All-keep P f (n ∷ ns) (q, h) = elim (Bool-cases (f n)) [
  | inl e ↦ rw e (q, All-keep P f ns h)
  | inr e ↦ rw e (All-keep P f ns h)
]

All-map :
    (P : Button → Type 0) (f : Button → Button) (bs : List Button)
    → ((b : Button) → P b → P (f b))
    → All P bs
    → All P (map f bs)
All-map P f [] k h = tt
All-map P f (b ∷ bs) k (p, h) = (k b p, All-map P f bs k h)

add_to_button-HoldsOwn :
    (clock : Clock) (n : Notification) (w : Bool) (b : Button)
    → HoldsOwn b
    → HoldsOwn (add_to_button clock n w b)
unfolding add_to_button
add_to_button-HoldsOwn clock n w b h = elim (Bool-cases (matches_button n b)) [
  | inl e ↦ rw e (added e w)
  | inr e ↦ rw e h
]
  where
    added :
        matches_button n b ≡ true
        → (v : Bool)
        → All (Fits b.role) (
            if v
            then stamped clock n ∷ b.notifications
            else b.notifications ++ stamped clock n ∷ [])
    added e true = (matches-Fits n b e, h)
    added e false = All-snoc (Fits b.role) b.notifications (stamped clock n) h (matches-Fits n b e)

add_notification-HoldOwn :
    (clock : Clock) (n : Notification) (w : Bool) (bs : List Button)
    → AllHoldOwn bs
    → AllHoldOwn (add_notification clock n w bs)
unfolding add_notification
add_notification-HoldOwn clock n w bs h =
    All-map HoldsOwn (add_to_button clock n w) bs (add_to_button-HoldsOwn clock n w) h

add_notifications-HoldOwn :
    (clock : Clock) (ns : List Notification) (bs : List Button)
    → AllHoldOwn bs
    → AllHoldOwn (add_notifications clock ns bs)
unfolding add_notifications
add_notifications-HoldOwn clock [] bs h = h
add_notifications-HoldOwn clock (n ∷ ns) bs h =
    add_notifications-HoldOwn clock ns (add_notification clock n false bs)
      (add_notification-HoldOwn clock n false bs h)

select_loop-HoldOwn : (k i : ℕ) (bs : List Button) → AllHoldOwn (select_loop k i bs)
unfolding select_loop
select_loop-HoldOwn k i [] = tt
select_loop-HoldOwn k i (b ∷ bs) = (tt, select_loop-HoldOwn k (suc i) bs)

deleted-HoldOwn :
    (f : Notification → Bool) (bs : List Button)
    → AllHoldOwn bs
    → AllHoldOwn (map (λ (b : Button). record b { notifications = keep f b.notifications }) bs)
deleted-HoldOwn f bs h = All-map HoldsOwn _ bs (λ b. All-keep (Fits b.role) f b.notifications) h

emptied-HoldOwn :
    (bs : List Button) → AllHoldOwn (map (λ (b : Button). record b { notifications = [] }) bs)
emptied-HoldOwn [] = tt
emptied-HoldOwn (b ∷ bs) = (tt, emptied-HoldOwn bs)

-- One event, by whether a dialog is open.
handle-HoldOwn :
    (e : Event) (new : List Notification) (bs : List Button) (d : Option Dialog)
    → AllHoldOwn bs
    → AllHoldOwn (handle e (record { new_notifications = new; buttons = bs; dialog = d })).0.buttons
unfolding handle open_dialog dialog_closed button_select scrolled replied_get_all
    replied_get_notifications on_broadcast replied_delete delete_all_closed replied_delete_all
handle-HoldOwn open_window new bs d h = select_loop-HoldOwn 0 0 bs
handle-HoldOwn (select k) new bs d h = select_loop-HoldOwn k 0 bs
handle-HoldOwn (scroll target) new bs none h = h
handle-HoldOwn (scroll target) new bs (some d) h = h
handle-HoldOwn (broadcast clock n) new bs none h = add_notification-HoldOwn clock n true bs h
handle-HoldOwn (broadcast clock n) new bs (some d) h = add_notification-HoldOwn clock n true bs h
handle-HoldOwn (reply_all clock (ok ns)) new bs d h = add_notifications-HoldOwn clock ns bs h
handle-HoldOwn (reply_all clock _) new bs d h = h
handle-HoldOwn (reply_page clock w (ok ns)) new bs none h = h
handle-HoldOwn (reply_page clock w (ok ns)) new bs (some d) h =
    add_notifications-HoldOwn clock ns bs h
handle-HoldOwn (reply_page clock w _) new bs none h = h
handle-HoldOwn (reply_page clock w _) new bs (some d) h = h
handle-HoldOwn (reply_delete id (ok x)) new bs none h = h
handle-HoldOwn (reply_delete id (ok x)) new bs (some d) h =
    deleted-HoldOwn (λ (n : Notification). not (n.id == id)) bs h
handle-HoldOwn (reply_delete id _) new bs none h = h
handle-HoldOwn (reply_delete id _) new bs (some d) h = h
handle-HoldOwn (reply_delete_all (ok x)) new bs none h = h
handle-HoldOwn (reply_delete_all (ok x)) new bs (some d) h = emptied-HoldOwn bs
handle-HoldOwn (reply_delete_all _) new bs none h = h
handle-HoldOwn (reply_delete_all _) new bs (some d) h = h
handle-HoldOwn _ new bs d h = h

run-HoldOwn_from :
    (es : List Event) (s : Notifier) → AllHoldOwn s.buttons → AllHoldOwn (run es s).buttons
unfolding run
run-HoldOwn_from [] s h = h
run-HoldOwn_from (e ∷ es) s h =
    run-HoldOwn_from es (handle e s).0 (handle-HoldOwn e s.new_notifications s.buttons s.dialog h)

-- Through any run, with any order of answers and broadcasts, a button lists notifications of its own
-- role only; the button "all" lists those of any role.
pub run-HoldOwn : (es : List Event) → AllHoldOwn (run es constructed).buttons
run-HoldOwn es =
    run-HoldOwn_from es constructed
      (tt, (tt, (tt, (tt, (tt, (tt, (tt, (tt, (tt, (tt, (tt, tt)))))))))))
