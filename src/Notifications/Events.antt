-- ===== src/Notifications/Events.antt =====
-- NotificationsComponent and NotificationsDialogComponent over their one list of buttons.
use text.Mathlib.Text.{◌==◌ as str_eq}
use hellogit.Common.{
  ℕ, suc, ◌+◌, String, Bool, true, false, not, Option, none, some, List, [], ◌∷◌, ◌++◌, map, keep,
  if◌then◌else◌, ◌==◌, leb, length, get_elem?,
}
use hellogit.Rest.{Reply, ok}
use hellogit.Snackbar.{success_message, error_message}
use hellogit.Notifications.Buttons.{
  Notification, Button, notification_button_list, Clock, add_notification, add_notifications,
}

-- The dialog; a button is named by its place in the list.
pub record Dialog : Type 0 where
  pub selected_notification_button : ℕ
  pub offset : ℕ
  pub end_of_scroll : Bool
  pub button_select_gate_active : Bool

-- `dialog` is `mat_dialog_ref_`, undefined while no dialog is open.
pub record Notifier : Type 0 where
  pub new_notifications : List Notification
  pub buttons : List Button
  pub dialog : Option Dialog

-- `get_notifications(offset, role)`: of the component, of the dialog, and of the dialog's scrolling.
pub data Effect : Type 0 where
  get_all : Effect
  get_notifications : ℕ → String → Bool → Effect
  delete_notification : String → Effect
  delete_all_notifications : Effect
  snackbar : String → Effect

abbrev pub Outcome : Type 0
Outcome = Notifier × List Effect

abbrev pub constructed : Notifier
constructed = record { new_notifications = []; buttons = notification_button_list; dialog = none }

-- The role of a button: those of the list have one.
abbrev pub role_at : List Button → ℕ → String
role_at bs k = elim (get_elem? bs k) [ none ↦ "" | some b ↦ b.role ]

-- The loop of `button_select`: every button is emptied, and the k-th of them is selected.
unfoldable pub select_loop : ℕ → ℕ → List Button → List Button
select_loop k i [] = []
select_loop k i (b ∷ bs) =
    record b { notifications = []; selected = i == k } ∷ select_loop k (suc i) bs

unfoldable pub button_select : ℕ → Notifier → Outcome
unfolding select_loop
button_select k s = (
  record s {
    buttons = select_loop k 0 s.buttons;
    dialog = some (record {
      selected_notification_button = k;
      offset = 0;
      end_of_scroll = false;
      button_select_gate_active = true;
    });
  },
  get_notifications 0 (role_at s.buttons k) false ∷ [],
)

-- `open_notification_dialog_window`, with the dialog's `ngOnInit`.
unfoldable pub open_dialog : Notifier → Outcome
unfolding button_select
open_dialog s = button_select 0 (record s { new_notifications = [] })

-- `afterClosed`: the list that is made anew holds the same buttons.
unfoldable pub dialog_closed : Notifier → Outcome
dialog_closed s = (record s { dialog = none }, get_all ∷ [])

-- `host_listener_on_scroll` with the target's offsetHeight, scrollTop and scrollHeight, if it has
-- them.
unfoldable pub on_scroll : Option (ℕ × ℕ × ℕ) → Dialog → Dialog × Bool
on_scroll target d =
    if d.button_select_gate_active
    then (record d { button_select_gate_active = false }, false)
    else if d.end_of_scroll
    then (d, false)
    else elim target [
      | none ↦ (d, false)
      | some (offset_height, scroll_top, scroll_height) ↦
          if leb scroll_height (offset_height + scroll_top)
          then (record d { offset = d.offset + 30 }, true)
          else (d, false)
    ]

unfoldable pub scrolled : Option (ℕ × ℕ × ℕ) → Notifier → Outcome
unfolding on_scroll
scrolled target s = elim s.dialog [
  | none ↦ (s, [])
  | some d ↦
      let (d', asks) = on_scroll target d in
      (
        record s { dialog = some d' },
        if asks
            then get_notifications d'.offset (role_at s.buttons d'.selected_notification_button)
                true
              ∷ []
            else [],
      )
]

-- The dialog's `api_get_notifications_`; its subscription ends with the dialog. (Moving the scroll
-- bar up and back is left out.)
unfoldable pub replied_get_notifications :
    Clock → Bool → Reply (List Notification) → Notifier → Outcome
replied_get_notifications clock scrolling (ok response) s = elim s.dialog [
  | none ↦ (s, [])
  | some d ↦ (
    record s {
      buttons = add_notifications clock response s.buttons;
      dialog = some (if scrolling then record d { end_of_scroll = length response == 0 } else d);
    },
    [],
  )
]
replied_get_notifications clock scrolling _ s = elim s.dialog [
  | none ↦ (s, [])
  | some d ↦ (s, snackbar (error_message "getting all notifications") ∷ [])
]

-- The component's `api_get_notifications_`
unfoldable pub replied_get_all : Clock → Reply (List Notification) → Notifier → Outcome
replied_get_all clock (ok response) s =
    (record s { buttons = add_notifications clock response s.buttons }, [])
replied_get_all clock _ s = (s, snackbar (error_message "getting all notifications") ∷ [])

-- The websocket's broadcast reaches the component, and the dialog while it is open.
unfoldable pub on_broadcast : Clock → Notification → Notifier → Outcome
on_broadcast clock n s = elim s.dialog [
  | none ↦ (
    record s {
      new_notifications = s.new_notifications ++ n ∷ [];
      buttons = add_notification clock n true s.buttons;
    },
    [],
  )
  | some d ↦ (record s { buttons = add_notification clock n true s.buttons }, [])
]

unfoldable pub replied_delete : String → Reply (Unit {0}) → Notifier → Outcome
replied_delete id (ok _) s = elim s.dialog [
  | none ↦ (s, [])
  | some d ↦ (
    record s {
      buttons =
          map
            (λ (b : Button). record b {
              notifications = keep (λ (n : Notification). not (str_eq n.id id)) b.notifications;
            })
            s.buttons;
    },
    snackbar (success_message "deleted notification") ∷ [],
  )
]
replied_delete id _ s = elim s.dialog [
  | none ↦ (s, [])
  | some d ↦ (s, snackbar (error_message "deleting notification") ∷ [])
]

-- `open_delete_all_notification_dialog_window`, the confirm dialog closed
unfoldable pub delete_all_closed : Bool → Notifier → Outcome
delete_all_closed confirmed s = (s, if confirmed then delete_all_notifications ∷ [] else [])

unfoldable pub replied_delete_all : Reply (Unit {0}) → Notifier → Outcome
replied_delete_all (ok _) s = elim s.dialog [
  | none ↦ (s, [])
  | some d ↦ (
    record s { buttons = map (λ (b : Button). record b { notifications = [] }) s.buttons },
    snackbar (success_message "deleted all notifications") ∷ [],
  )
]
replied_delete_all _ s = elim s.dialog [
  | none ↦ (s, [])
  | some d ↦ (s, snackbar (error_message "deleting all notifications") ∷ [])
]

pub data Event : Type 0 where
  init open_window close_window : Event
  select : ℕ → Event
  scroll : Option (ℕ × ℕ × ℕ) → Event
  click_delete : String → Event
  close_delete_all : Bool → Event
  broadcast : Clock → Notification → Event
  reply_all : Clock → Reply (List Notification) → Event
  reply_page : Clock → Bool → Reply (List Notification) → Event
  reply_delete : String → Reply (Unit {0}) → Event
  reply_delete_all : Reply (Unit {0}) → Event

unfoldable pub handle : Event → Notifier → Outcome
handle init s = (s, get_all ∷ [])
handle open_window s = open_dialog s
handle close_window s = dialog_closed s
handle (select k) s = button_select k s
handle (scroll target) s = scrolled target s
handle (click_delete id) s = (s, delete_notification id ∷ [])
handle (close_delete_all confirmed) s = delete_all_closed confirmed s
handle (broadcast clock n) s = on_broadcast clock n s
handle (reply_all clock r) s = replied_get_all clock r s
handle (reply_page clock scrolling r) s = replied_get_notifications clock scrolling r s
handle (reply_delete id r) s = replied_delete id r s
handle (reply_delete_all r) s = replied_delete_all r s

unfoldable pub run : List Event → Notifier → Notifier
run [] s = s
run (e ∷ es) s = run es (handle e s).0
