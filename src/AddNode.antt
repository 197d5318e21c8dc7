-- ===== src/AddNode.antt =====
-- web/frontend/src/app/modules/node-mng/components/add-node-dialog/add-node-dialog.component.ts: the
-- dialog that adds a node, its addresses, its requests one after the other, and their answers.
mod Types
mod Addresses
mod Handlers
mod Digits
pub mod Offered
pub mod Race
mod Tests
