-- ===== src/Notifications/Tests.antt =====
-- The buttons with a few notifications, and the theorems at them.
use hellogit.Common.{ℕ, ◌≡◌, refl, String, true, false, none, some, List, [], ◌∷◌, map, get_elem?}
use hellogit.Rest.{ok}
use hellogit.Notifications.Display.{past, unknown}
use hellogit.Notifications.Buttons.{
  Notification, Button, Clock, stamped, add_notifications, add_notification,
}
use hellogit.Notifications.Events.{
  Dialog, Notifier, Event, constructed, run, init, open_window, broadcast, reply_page, reply_all,
  close_window, on_broadcast, replied_get_all, dialog_closed, replied_get_notifications,
  open_dialog, handle,
}
use hellogit.Notifications.Lists.{AllHoldOwn, run-HoldOwn}

abbrev note : String → String → Notification
note id role = record {
  id = id;
  role = role;
  message = "started";
  status = "STARTED";
  exception = "";
  timestamp = "2021-01-01T00:00:00";
  shown_time = unknown;
  action = "";
  application = "";
}

-- Two hours after every time stamp.
abbrev clock : Clock
clock t = past 7200000

abbrev notes : List Notification
notes = note "1" "catalog" ∷ note "2" "nodes" ∷ []

abbrev session : List Event
session =
    init
    ∷ reply_all clock (ok notes)
    ∷ open_window
    ∷ reply_page clock false (ok notes)
    ∷ broadcast clock (note "3" "agent")
    ∷ close_window
    ∷ reply_all clock (ok notes)
    ∷ []

run-HoldOwn_example : AllHoldOwn (run session constructed).buttons
run-HoldOwn_example = run-HoldOwn session

-- After the session the button "All" lists five notifications, of which there are three.
abbrev ids_at : ℕ → Notifier → List String
ids_at i s = elim (get_elem? s.buttons i) [
  | none ↦ []
  | some b ↦ map (λ (n : Notification). n.id) b.notifications
]

doubled : ids_at 0 (run session constructed) ≡ "3" ∷ "1" ∷ "2" ∷ "1" ∷ "2" ∷ []
unfolding run handle replied_get_all open_dialog replied_get_notifications on_broadcast
    dialog_closed add_notifications add_notification
doubled = refl

abbrev all_button : Button
all_button = record {
  name = "All";
  selected = true;
  title = "All Messages";
  role = "all";
  notifications = map (stamped clock) notes;
  icon = "dashboard";
}

abbrev opened : Notifier
opened = record {
  new_notifications = [];
  buttons = all_button ∷ [];
  dialog = some (record {
    selected_notification_button = 0;
    offset = 0;
    end_of_scroll = false;
    button_select_gate_active = false;
  });
}

abbrev dialog : Dialog
dialog = record {
  selected_notification_button = 0;
  offset = 0;
  end_of_scroll = false;
  button_select_gate_active = false;
}
