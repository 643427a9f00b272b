-- ===== src/Examples.antt =====
-- Concrete inputs: numbers, records and texts, and the theorems at them.
mod Numbers
mod Payouts
mod Memory
mod Stores
mod Shares
mod Blobs
mod Mining
mod Coinbases
mod Encodings
mod Clients
mod Connections
