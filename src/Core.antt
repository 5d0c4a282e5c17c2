-- ===== src/Core.antt =====
-- crates/tachyon-core: the types and rules that every other crate uses.
pub mod Error
pub mod State
pub mod FragmentInfo
pub mod RateLimit
pub mod UrlSafety
pub mod Config
pub mod Filename
