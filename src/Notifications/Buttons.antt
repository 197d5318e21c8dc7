-- ===== src/Notifications/Buttons.antt =====
-- The buttons, and `add_notification_to_button_list` of
-- web/frontend/src/app/modules/notifications/classes/notifications-static-methods.class.ts.
use text.Mathlib.Text.{◌==◌}
use hellogit.Common.{String, Bool, true, false, ◌||◌, List, [], ◌∷◌, ◌++◌, map, if◌then◌else◌}
use hellogit.Notifications.Display.{Age, DisplayTime, display_time}

-- web/frontend/src/app/classes/notification.class.ts
pub record Notification : Type 0 where
  pub id : String
  pub role : String
  pub message : String
  pub status : String
  pub exception : String
  pub timestamp : String
  pub shown_time : DisplayTime
  pub action : String
  pub application : String

pub record Button : Type 0 where
  pub name : String
  pub selected : Bool
  pub title : String
  pub role : String
  pub notifications : List Notification
  pub icon : String

abbrev button : String → String → String → String → Button
button name title role icon = record {
  name = name;
  selected = false;
  title = title;
  role = role;
  notifications = [];
  icon = icon;
}

-- NOTIFICATION_BUTTON_LIST
abbrev pub notification_button_list : List Button
notification_button_list =
    record (button "All" "All Messages" "all" "dashboard") { selected = true }
    ∷ button "Catalog" "Catalog Messages" "catalog" "apps"
    ∷ button "Settings" "Settings Messages" "settings" "layers"
    ∷ button "Nodes" "Nodes Messages" "nodes" "storage"
    ∷ button "RuleSync" "RuleSync Messages" "rulesync" "swap_horiz"
    ∷ button "ES-Scale" "ES-Scale Messages" "scale" "tune"
    ∷ button "Agent" "Agent Messages" "agent" "desktop_windows"
    ∷ button "PCAP" "PCAP Replay" "pcap" "network_check"
    ∷ button "Cold Log Ingest" "Cold Log Ingest" "process_logs" "archive"
    ∷ button "Tools" "Tools Messages" "tools" "build"
    ∷ button "Index Management" "Index Management Messages" "curator" "timeline"
    ∷ []

-- What the buttons rely on of the clock: the age of a time stamp at this moment.
abbrev pub Clock : Type 0
Clock = String → Age

abbrev pub stamped : Clock → Notification → Notification
stamped clock n = record n { shown_time = display_time (clock n.timestamp) }

abbrev pub matches_button : Notification → Button → Bool
matches_button n b = b.role == n.role || b.role == "all"

-- One round of the loop: `unshift` for the websocket, `push` for the server's lists.
unfoldable pub add_to_button : Clock → Notification → Bool → Button → Button
add_to_button clock n from_websocket b =
    if matches_button n b
    then record b {
      notifications =
          if from_websocket
          then stamped clock n ∷ b.notifications
          else b.notifications ++ stamped clock n ∷ [];
    }
    else b

unfoldable pub add_notification : Clock → Notification → Bool → List Button → List Button
unfolding add_to_button
add_notification clock n from_websocket buttons = map (add_to_button clock n from_websocket) buttons

-- `response.forEach((ni) => add_notification_to_button_list(ni, buttons))`
unfoldable pub add_notifications : Clock → List Notification → List Button → List Button
unfolding add_notification
add_notifications clock [] buttons = buttons
add_notifications clock (n ∷ ns) buttons =
    add_notifications clock ns (add_notification clock n false buttons)
