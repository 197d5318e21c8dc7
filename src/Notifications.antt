-- ===== src/Notifications.antt =====
-- web/frontend/src/app/modules/notifications: the button with the count of new notifications and the
-- dialog with the notifications by role.
--
-- The two components show one list of button objects: `NOTIFICATION_BUTTON_LIST.map((nb) => nb)` is
-- a new array of the same objects, those of the module's constant, and the dialog is handed that
-- array. So the state has the buttons once.
pub mod Display
pub mod Buttons
pub mod Events
pub mod Lists
pub mod Dialogs
mod Tests
