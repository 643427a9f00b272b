-- ===== src/Examples/Blobs.antt =====
-- Cryptonote numbers and a small block.
use not_only_mining_pool.Common.{inl, ◌≡◌, [], ◌∷◌, ◌++◌, length, arith, refl, replicate, ltb}
use not_only_mining_pool.Engine.Cryptonote.Varint.{good, read_varint, varint, varint_loop}
use not_only_mining_pool.Engine.Cryptonote.Varint.RoundTrip.{read_varint-varint}
use not_only_mining_pool.Engine.Cryptonote.Blob.{parse_block_blob}
use not_only_mining_pool.Engine.Cryptonote.Blob.Written.{
  NodeBlock, blob_text, header_text, miner_tx_text, outputs_text, output_text, rct_text, IsBlock,
  spans_of,
}
use not_only_mining_pool.Engine.Cryptonote.Blob.Printed.{parse_block_blob-blob_text}

read_varint-varint_example : read_varint (9 ∷ (varint 300 ++ (7 ∷ []))) 1 ≡ good (300, 3)
unfolding varint varint_loop
read_varint-varint_example = read_varint-varint (9 ∷ []) (7 ∷ []) 300 (omega arith)

-- A block with one output and one other transaction.
abbrev small : NodeBlock
small = record {
  major = 16;
  minor = 16;
  timestamp = 1700000000;
  prev = replicate 32 1;
  nonce = 0 ∷ 0 ∷ 0 ∷ 0 ∷ [];
  version = 2;
  unlock_time = 160;
  height = 100;
  outputs = (record { amount = 600; tag = 2; key = replicate 32 5 }) ∷ [];
  extra = 1 ∷ 2 ∷ 3 ∷ [];
  hashes = replicate 32 7 ∷ [];
}

small_size : length (blob_text small) ≡ 123
unfolding blob_text header_text miner_tx_text outputs_text output_text rct_text varint varint_loop
small_size = refl

small-IsBlock : IsBlock small
small-IsBlock = record {
  major_fits = omega arith;
  minor_fits = omega arith;
  timestamp_fits = omega arith;
  prev_size = refl;
  nonce_size = refl;
  version_fits = omega arith;
  unlock_time_fits = omega arith;
  height_fits = omega arith;
  keys = ((omega arith, inl (refl, refl)), tt);
  hash_sizes = (refl, tt);
  size = omega (arith, small_size);
}

parse_block_blob-blob_text_example :
    parse_block_blob (λ n. ltb n 1000) (blob_text small) ≡ good (spans_of small)
parse_block_blob-blob_text_example =
    parse_block_blob-blob_text (λ n. ltb n 1000) small small-IsBlock refl
