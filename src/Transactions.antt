-- ===== src/Transactions.antt =====
-- transactions/transactions.go: the coinbase transaction of a block, in two halves round the extra nonce.
pub mod Outputs
pub mod Generation
pub mod Layout
