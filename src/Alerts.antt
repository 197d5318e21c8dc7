-- ===== src/Alerts.antt =====
-- web/frontend/src/app/modules/security-alerts/security-alerts.component.ts: the table of alerts,
-- grouped by the columns that the user chooses and filtered by a form.
pub mod Types
pub mod Actions
pub mod Links
pub mod Replies
pub mod Events
pub mod Distinct
pub mod Columns
pub mod Asks
pub mod Filters
pub mod Queries
pub mod Visits
mod Tests
