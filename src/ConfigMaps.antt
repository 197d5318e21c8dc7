-- ===== src/ConfigMaps.antt =====
-- web/frontend/src/app/modules/config-map/config-map.component.ts: the table of config maps, whose
-- entries a text editor changes.
pub mod Types
pub mod Actions
pub mod Events
mod Names
pub mod Entries
pub mod Saving
pub mod Runs
mod Tests
