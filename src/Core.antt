-- ===== src/Core.antt =====
-- packages/core/src/index.ts: the paths that never leave the machine.
pub mod Regex
pub mod Redact
pub mod Nested
