-- ===== src/Payments.antt =====
-- payments/payer.go: the payout runs of the pool, as programs that call redis and the wallet.
pub mod Prog
pub mod Split
pub mod Classify
pub mod Settle
pub mod Run
pub mod World
pub mod Ledger
pub mod Chosen
pub mod SettleSafe
pub mod Keyed
pub mod Quiet
pub mod PaySafe
pub mod NoDoublePay
pub mod Recovery
pub mod Confirms
pub mod Tries
pub mod Terminates
