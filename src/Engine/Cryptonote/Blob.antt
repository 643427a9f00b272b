-- ===== src/Engine/Cryptonote/Blob.antt =====
-- engine/cryptonote/blob.go: parseBlockBlob and what is made of a parsed block.
pub mod At
pub mod Written
pub mod Printed
use not_only_mining_pool.Common.{
  ℕ, zero, suc, ◌+◌, ◌-◌, ◌%◌, ◌^◌, Bool, false, Option, none, some, List, [], ◌∷◌, ◌++◌, Bytes,
  length, take, drop, replicate, get_elem?, ltb, ◌==◌, ◌||◌, ◌&&◌, not, if◌then◌else◌,
}
use not_only_mining_pool.Engine.Cryptonote.Varint.{
  Parse, good, bad, panics, ◌>>=◌, read_varint, varint,
}
use not_only_mining_pool.Engine.Cryptonote.TreeHash.{tree_hash}

-- parsedBlock
pub record ParsedBlock : Type 0 where
  pub blob : Bytes
  pub nonce_offset : ℕ
  pub header_end : ℕ
  pub miner_tx_end : ℕ
  pub miner_tx_ver : ℕ
  pub tx_count : ℕ
  pub tx_hashes : List Bytes

-- `b[from:to]`, where `to` is not behind the end.
unfoldable pub slice : Bytes → ℕ → ℕ → Bytes
slice b from to = take (to - from) (drop from b)

-- Whether a byte is at a position.
unfoldable pub is_at : Bytes → ℕ → ℕ → Bool
is_at b pos c = elim (get_elem? b pos) [ none ↦ false | some x ↦ x == c ]

-- A position up to the end of the blob, or an error.
unfoldable pub within : Bytes → ℕ → Parse ℕ
within blob pos = if ltb (length blob) pos then bad else good pos

-- The key of an output behind its tag.
unfoldable pub key_size : ℕ → Parse ℕ
key_size tag = if tag == 2 then good 32 else if tag == 3 then good 33 else bad

unfoldable pub skip_key : Bytes → ℕ → Option ℕ → Parse ℕ
skip_key blob pos none = bad
skip_key blob pos (some tag) = key_size tag >>= λ n. within blob (pos + 1 + n)

-- The loop over the outputs. Each takes a byte at least, so that as many rounds as bytes are enough; with
-- no round left, the outputs would go beyond the blob.
unfoldable pub skip_outputs : ℕ → Bytes → ℕ → ℕ → Parse ℕ
skip_outputs fuel blob zero pos = good pos
skip_outputs zero blob (suc count) pos = bad
skip_outputs (suc fuel) blob (suc count) pos = read_varint blob pos >>= λ (amount, p).
    skip_key blob p (get_elem? blob p) >>= λ q. skip_outputs fuel blob count q

-- `pos += int(extraLen)`: the sum wraps as an int, so that a long extra goes back in the blob, or to a
-- negative position, at which the next read panics.
unfoldable pub skip_extra : Bytes → ℕ → ℕ → Parse ℕ
skip_extra blob extra_len pos =
    let next = (pos + extra_len) % 2 ^ 64 in if ltb next (2 ^ 63) then within blob next else panics

-- The byte RCTTypeNull of a transaction of version two or later.
unfoldable pub skip_rct : Bytes → ℕ → ℕ → Parse ℕ
skip_rct blob ver pos =
    if ltb ver 2 then good pos else if is_at blob pos 0 then good (pos + 1) else bad

-- The loop over the hashes, with the rounds that the blob has bytes for; they end at the end of the blob.
unfoldable pub read_hashes : ℕ → Bytes → ℕ → ℕ → Parse (List Bytes)
read_hashes fuel blob zero pos = if pos == length blob then good [] else bad
read_hashes zero blob (suc count) pos = bad
read_hashes (suc fuel) blob (suc count) pos = within blob (pos + 32) >>= λ next.
    read_hashes fuel blob count next >>= λ hashes. good (slice blob pos next ∷ hashes)

-- The header: three numbers, the previous hash and the nonce. Where the nonce begins.
unfoldable pub skip_header : Bytes → Parse ℕ
skip_header blob = read_varint blob 0 >>= λ (major, p1). read_varint blob p1 >>= λ (minor, p2).
    read_varint blob p2 >>= λ (timestamp, p3). within blob (p3 + 36) >>= λ end. good (p3 + 32)

-- The miner's transaction from its version on: the version, and where it ends.
unfoldable pub skip_gen : Bytes → ℕ → ℕ → Parse ℕ
skip_gen blob vin_count pos =
    if vin_count == 1 then (if is_at blob pos 255 then good (pos + 1) else bad) else bad

unfoldable pub skip_miner_tx : Bytes → ℕ → Parse (ℕ × ℕ)
skip_miner_tx blob pos = read_varint blob pos >>= λ (ver, p1).
    read_varint blob p1 >>= λ (unlock_time, p2). read_varint blob p2 >>= λ (vin_count, p3).
    skip_gen blob vin_count p3 >>= λ p4. read_varint blob p4 >>= λ (height, p5).
    read_varint blob p5 >>= λ (vout_count, p6).
    skip_outputs (length blob) blob vout_count p6 >>= λ p7.
    read_varint blob p7 >>= λ (extra_len, p8).
    skip_extra blob extra_len p8 >>= λ p9. skip_rct blob ver p9 >>= λ p10. good (ver, p10)

-- `make([][]byte, 0, n)`, which panics where the memory of the process has no room for it.
unfoldable pub make_hashes : (ℕ → Bool) → ℕ → Parse (Unit {0})
make_hashes has_room n = if has_room n then good tt else panics

-- parseBlockBlob
unfoldable pub parse_block_blob : (ℕ → Bool) → Bytes → Parse ParsedBlock
parse_block_blob has_room blob = skip_header blob >>= λ nonce_offset.
    skip_miner_tx blob (nonce_offset + 4) >>= λ (ver, miner_tx_end).
    read_varint blob miner_tx_end >>= λ (tx_count, p). make_hashes has_room tx_count >>= λ _.
    read_hashes (length blob) blob tx_count p >>= λ tx_hashes. good (record {
      blob = blob;
      nonce_offset = nonce_offset;
      header_end = nonce_offset + 4;
      miner_tx_end = miner_tx_end;
      miner_tx_ver = ver;
      tx_count = tx_count;
      tx_hashes = tx_hashes;
    })

module _ (keccak : Bytes → Bytes) where
  -- minerTxHash of the transaction's bytes
  unfoldable pub tx_hash_of : ℕ → Bytes → Bytes
  tx_hash_of ver tx =
      let last = length tx - 1 in
      if ltb ver 2
      then keccak tx
      else keccak (keccak (take last tx) ++ (keccak (drop last tx) ++ replicate 32 0))

  -- A slice that would end in front of its start panics, and so does the last byte of an empty one.
  unfoldable pub miner_tx_hash : ParsedBlock → Parse Bytes
  miner_tx_hash p =
      if ltb p.miner_tx_end p.header_end
        || (not (ltb p.miner_tx_ver 2) && (p.miner_tx_end == p.header_end))
      then panics
      else good (tx_hash_of p.miner_tx_ver (slice p.blob p.header_end p.miner_tx_end))

  -- hashingBlob
  unfoldable pub hashing_blob : ParsedBlock → Parse Bytes
  hashing_blob p = miner_tx_hash p >>= λ h. good (
      take p.header_end p.blob
      ++ (tree_hash keccak (h ∷ p.tx_hashes) ++ varint ((p.tx_count + 1) % 2 ^ 64)))

-- withNonce: copy takes at most four bytes. The slice panics beyond the capacity that append has given the
-- copy, which is at least its length; what it writes behind the length is not seen.
unfoldable pub with_nonce : ℕ → Bytes → ℕ → Bytes → Parse Bytes
with_nonce capacity blob offset nonce =
    let copied = take 4 nonce in
    let out = blob ++ replicate (capacity - length blob) 0 in
    if ltb capacity (offset + 4)
    then panics
    else good
        (take (length blob) (take offset out ++ (copied ++ drop (offset + length copied) out)))
