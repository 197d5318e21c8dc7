-- ===== src/Agents.antt =====
-- web/frontend/src/app/modules/agent-builder-chooser/agent-builder-chooser.component.ts: the
-- configurations of Windows agent installers, the lists of hosts that they are for, and the requests
-- to install and uninstall.
pub mod Types
pub mod Hosts
pub mod Actions
pub mod Dialogs
pub mod Tables
pub mod Replies
pub mod Events
pub mod Distinct
pub mod Refresh
pub mod Single
pub mod Removal
pub mod Selected
pub mod Runs
mod Tests
