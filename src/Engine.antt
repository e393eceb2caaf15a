-- ===== src/Engine.antt =====
-- packages/sync/src/engine.ts: the state of a sync engine, and which paths it syncs.
mod State
unfoldable pub use State.*
pub mod Tree
pub mod Publish
pub mod Conflict
pub mod Apply
pub mod Deferral
pub mod Head
pub mod Frozen
