-- ===== src/Cache.antt =====
-- cache/: the sharded cache of answers.
pub mod Entry
pub mod Shard
pub mod Store
pub mod Reads
pub mod Sweep
