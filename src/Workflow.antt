-- ===== src/Workflow.antt =====
-- web/frontend/src/app/modules/catalog/components/catalog-page/catalog-page.component.ts: how a chart is
-- installed, installed again or uninstalled on nodes.
pub mod Types
pub mod Processes
pub mod Handlers
pub mod Replies
pub mod Unrepeated
pub mod Children
pub mod Names
mod Tests
