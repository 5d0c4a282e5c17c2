-- ===== src/Dht.antt =====
-- The distributed hash table, crates/tachyon-p2sp/src/dht.
pub mod Bucket
pub mod Table
pub mod Closest
pub mod Kademlia
