-- ===== src/Engine.antt =====
-- engine/: the engines for coins that are not mined with bitcoind's block templates.
pub mod Cryptonote
