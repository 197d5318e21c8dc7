-- ===== src/Nodes.antt =====
-- web/frontend/src/app/modules/node-mng/node-mng.component.ts: the tables of nodes and of the control
-- plane, the buttons of the kit, and the deletion of a node.
pub mod Types
pub mod Handlers
pub mod Tables
pub mod Deletion
pub mod Events
pub mod Runs
mod Tests
