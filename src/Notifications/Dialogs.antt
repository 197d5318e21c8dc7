-- ===== src/Notifications/Dialogs.antt =====
-- Selecting, scrolling, deleting, and what closing the dialog leaves behind.
use text.Mathlib.TextEquality.{eq_iff}
use text.Mathlib.TextPositions.{eq_refl}
use Prim.Native.Nat.add
use mathlib.Core.List.{append_assoc, append-nil}
use hellogit.Common.{
  ℕ, zero, suc, ◌+◌, ◌≤◌, ◌≡◌, refl, sym, ap, ◌∙◌, true, false, Option, none, some, List, [], ◌∷◌,
  ◌++◌, map, arith, get_elem?, if◌then◌else◌, ◌==◌,
}
use hellogit.Rest.{Reply, ok, IsError, refused, unanswered}
use hellogit.Notifications.Buttons.{
  Notification, Button, Clock, stamped, matches_button, add_to_button, add_notification,
  add_notifications,
}
use hellogit.Notifications.Events.{
  Dialog, Notifier, get_notifications, role_at, select_loop, button_select, dialog_closed,
  on_scroll, scrolled, replied_get_notifications, replied_get_all, on_broadcast,
}

get_elem?-map :
    (f : Button → Button) (bs : List Button) (i : ℕ) (b : Button)
    → get_elem? bs i ≡ some b
    → get_elem? (map f bs) i ≡ some (f b)
get_elem?-map f [] i b h = cc
get_elem?-map f (c ∷ bs) zero b h = ground arith
get_elem?-map f (c ∷ bs) (suc i) b h = get_elem?-map f bs i b h

matches-all : (n : Notification) (b : Button) → b.role ≡ "all" → matches_button n b ≡ true
matches-all n b h = ground (arith, eq_iff b.role "all", eq_refl "all")

added :
    (clock : Clock) (n : Notification) (bs : List Button) (i : ℕ) (b : Button)
    → get_elem? bs i ≡ some b
    → b.role ≡ "all"
    → get_elem? (add_notification clock n false bs) i
      ≡ some (record b { notifications = b.notifications ++ stamped clock n ∷ [] })
unfolding add_notification
added clock n bs i b h r =
    get_elem?-map (add_to_button clock n false) bs i b h
    ∙ unfold add_to_button in rw (matches-all n b r)

-- The list of a button of the role "all" when the server's list comes.
add_notifications-all :
    (clock : Clock) (ns : List Notification) (bs : List Button) (i : ℕ) (b : Button)
    → get_elem? bs i ≡ some b
    → b.role ≡ "all"
    → get_elem? (add_notifications clock ns bs) i
      ≡ some (record b { notifications = b.notifications ++ map (stamped clock) ns })
unfolding add_notifications
add_notifications-all clock [] bs i b h r =
    h ∙ ap (λ ns. some (record b { notifications = ns })) (sym (append-nil b.notifications))
add_notifications-all clock (n ∷ ns) bs i b h r =
    add_notifications-all clock ns (add_notification clock n false bs) i
      (record b { notifications = b.notifications ++ stamped clock n ∷ [] })
      (added clock n bs i b h r) r
    ∙ ap (λ ns. some (record b { notifications = ns }))
        (append_assoc b.notifications (stamped clock n ∷ []) (map (stamped clock) ns))

-- Closing the dialog does not empty the buttons: when the server's list has come, the button "all"
-- has it behind everything that it listed before.
pub closed-keeps :
    (clock : Clock) (ns : List Notification) (s : Notifier) (i : ℕ) (b : Button)
    → get_elem? s.buttons i ≡ some b
    → b.role ≡ "all"
    → get_elem? (replied_get_all clock (ok ns) (dialog_closed s).0).0.buttons i
      ≡ some (record b { notifications = b.notifications ++ map (stamped clock) ns })
unfolding replied_get_all dialog_closed
closed-keeps clock ns s i b h r = add_notifications-all clock ns s.buttons i b h r

select_loop-get :
    (k j : ℕ) (bs : List Button) (i : ℕ) (b : Button)
    → get_elem? bs i ≡ some b
    → get_elem? (select_loop k j bs) i
      ≡ some (record b { notifications = []; selected = (j + i) == k })
unfolding select_loop
select_loop-get k j [] i b h = cc
select_loop-get k j (c ∷ bs) zero b h = ground arith
select_loop-get k j (c ∷ bs) (suc i) b h =
    let e : j + suc i ≡ suc j + i = omega arith in rw e (select_loop-get k (suc j) bs i b h)

-- Selecting a button empties every list, marks that button and no other, and asks for the first
-- notifications of its role, from offset 0.
pub button_select_lem :
    (k i : ℕ) (s : Notifier) (b : Button)
    → get_elem? s.buttons i ≡ some b
    → (get_elem? (button_select k s).0.buttons i
        ≡ some (record b { notifications = []; selected = i == k }))
      × ((button_select k s).1 ≡ get_notifications 0 (role_at s.buttons k) false ∷ [])
unfolding button_select
button_select_lem k i s b h = (rw add.zero at (select_loop-get k 0 s.buttons i b h), refl)

-- A broadcast is listed once by each button that it fits, at the head, whether the dialog is open or
-- not, and the other buttons stay as they are; it counts as new only if no dialog is open.
pub on_broadcast_lem :
    (clock : Clock) (n : Notification) (s : Notifier) (i : ℕ) (b : Button)
    → get_elem? s.buttons i ≡ some b
    → (get_elem? (on_broadcast clock n s).0.buttons i
        ≡ some (
            if matches_button n b
            then record b { notifications = stamped clock n ∷ b.notifications }
            else b))
      × ((on_broadcast clock n s).0.new_notifications
          ≡ elim s.dialog [ none ↦ s.new_notifications ++ n ∷ [] | some _ ↦ s.new_notifications ])
unfolding on_broadcast add_notification add_to_button
on_broadcast_lem clock n s i b h =
    on_dialog s.dialog (get_elem?-map (add_to_button clock n true) s.buttons i b h)
  where
    on_dialog :
        (d : Option Dialog)
        → get_elem? (map (add_to_button clock n true) s.buttons) i
          ≡ some (add_to_button clock n true b)
        → (get_elem? (on_broadcast clock n (record s { dialog = d })).0.buttons i
            ≡ some (
                if matches_button n b
                then record b { notifications = stamped clock n ∷ b.notifications }
                else b))
          × ((on_broadcast clock n (record s { dialog = d })).0.new_notifications
              ≡ elim d [ none ↦ s.new_notifications ++ n ∷ [] | some _ ↦ s.new_notifications ])
    on_dialog none e = (e, refl)
    on_dialog (some d) e = (e, refl)

-- Scrolled to the end with the gate open and more to come.
on_scroll_end :
    (d : Dialog) (h top height : ℕ)
    → d.button_select_gate_active ≡ false
    → d.end_of_scroll ≡ false
    → height ≤ h + top
    → on_scroll (some (h, top, height)) d ≡ (record d { offset = d.offset + 30 }, true)
unfolding on_scroll
on_scroll_end d h top height gate end_ le = ground arith

scrolled_end :
    (s : Notifier) (d : Dialog) (h top height : ℕ)
    → s.dialog ≡ some d
    → d.button_select_gate_active ≡ false
    → d.end_of_scroll ≡ false
    → height ≤ h + top
    → scrolled (some (h, top, height)) s ≡ (
      record s { dialog = some (record d { offset = d.offset + 30 }) },
      get_notifications (d.offset + 30) (role_at s.buttons d.selected_notification_button) true
          ∷ [],
    )
unfolding scrolled
scrolled_end s d h top height open_ gate end_ le =
    rw (open_, scrolled) (rw (on_scroll_end d h top height gate end_ le))

failed_keeps :
    (clock : Clock) (reply : Reply (List Notification)) (s : Notifier)
    → IsError reply
    → (replied_get_notifications clock true reply s).0 ≡ s
unfolding replied_get_notifications
failed_keeps clock reply s (refused m) = ground arith
failed_keeps clock reply s unanswered = ground arith

-- Where the dialog is scrolled to the end: the next 30 notifications are asked for. If that fails
-- and the user scrolls to the end again, the ones after those are asked for, so the 30 are skipped.
pub scroll-skips :
    (clock : Clock) (reply : Reply (List Notification)) (s : Notifier) (d : Dialog)
    (h top height : ℕ)
    → IsError reply
    → s.dialog ≡ some d
    → d.button_select_gate_active ≡ false
    → d.end_of_scroll ≡ false
    → height ≤ h + top
    → let role = role_at s.buttons d.selected_notification_button in
      let first = scrolled (some (h, top, height)) s in
      let failed = replied_get_notifications clock true reply first.0 in
      (first.1 ≡ get_notifications (d.offset + 30) role true ∷ [])
      × ((scrolled (some (h, top, height)) failed.0).1
          ≡ get_notifications (d.offset + 60) role true ∷ [])
scroll-skips clock reply s d h top height err open_ gate end_ le =
    let d' : Dialog = record d { offset = d.offset + 30 } in
    let s' : Notifier = record s { dialog = some d' } in
    let first = scrolled_end s d h top height open_ gate end_ le in
    (
      ap (λ o. o.1) first,
      rw (first, failed_keeps clock reply s' err, scrolled_end s' d' h top height refl gate end_ le)
          (ground arith),
    )
