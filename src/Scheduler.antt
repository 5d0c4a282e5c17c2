-- ===== src/Scheduler.antt =====
-- crates/tachyon-scheduler.
pub mod Queue
