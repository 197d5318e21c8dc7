-- ===== src/Policy.antt =====
-- web/frontend/src/app/modules/policy-management/policy-management.component.ts, the page with the
-- rule sets and the rules of the one that is expanded.
pub mod Types
pub mod Actions
pub mod Replies
pub mod Events
pub mod Visible
pub mod Deletion
pub mod Loading
pub mod Toggling
pub mod Sync
pub mod Failures
pub mod Clicks
pub mod Filter
mod Tests
