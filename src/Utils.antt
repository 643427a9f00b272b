-- ===== src/Utils.antt =====
-- utils/utils.go: the byte-level helpers of the pool.
pub mod Pack
pub mod Varint
pub mod Number
pub mod Reverse
pub mod Search
pub mod Hex
pub mod Compact
pub mod Script
