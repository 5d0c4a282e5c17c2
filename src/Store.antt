-- ===== src/Store.antt =====
-- The store of tasks and settings, crates/tachyon-store/src.
pub mod Key
pub mod Recovery
