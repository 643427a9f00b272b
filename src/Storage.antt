-- ===== src/Storage.antt =====
-- storage/: what the pool keeps in redis.
pub mod Types
pub mod Block
pub mod Redis
pub mod Keys
pub mod Shares
pub mod Reads
pub mod Payouts
pub mod Site
pub mod Stats
