-- ===== src/Io.antt =====
-- crates/tachyon-io: the buffers and the plan of writes in front of a storage.
pub mod Buffer
pub mod Pipeline
