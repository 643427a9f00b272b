-- ===== src/Stratum.antt =====
-- stratum/: the pool's side of a miner's connection.
pub mod Client
pub mod Server
