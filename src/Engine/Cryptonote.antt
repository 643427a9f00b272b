-- ===== src/Engine/Cryptonote.antt =====
-- engine/cryptonote/blob.go: the serialization of Cryptonote blocks.
pub mod Varint
pub mod TreeHash
pub mod Blob
