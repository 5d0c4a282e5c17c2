-- ===== src/Engine.antt =====
-- crates/tachyon-engine: planning, downloading and retrying fragments.
pub mod Circuit
pub mod Fragment
pub mod Plan
mod Async
pub mod Control
pub mod Storage
pub mod Write
pub mod Stream
pub mod Retry
pub mod Full
pub mod Join
pub mod Run
pub mod Pool
