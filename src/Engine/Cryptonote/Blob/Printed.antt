-- ===== src/Engine/Cryptonote/Blob/Printed.antt =====
-- engine/cryptonote/blob.go: what parseBlockBlob finds in a block.
use not_only_mining_pool.Common.{
  ℕ, zero, suc, ◌+◌, ◌%◌, ◌≤◌, ◌<◌, ◌^◌, ◌≡◌, refl, subst, inl, inr, Bool, true, some, List, [],
  ◌∷◌, ◌++◌, Bytes, length, length-append, join, All, get_elem?, arith, ltb, ◌==◌, Bool-cases,
}
use not_only_mining_pool.Engine.Cryptonote.Varint.{good, varint}
use not_only_mining_pool.Engine.Cryptonote.Blob.{
  key_size, slice, is_at, within, skip_key, skip_outputs, skip_extra, skip_rct, read_hashes,
  skip_header, skip_gen, skip_miner_tx, make_hashes, parse_block_blob,
}
use not_only_mining_pool.Engine.Cryptonote.Blob.At.{
  At, At-start, At-append, At-behind, At-varint, At-number, At-byte, At-end, length-At, within-At,
  slice-At,
}
use not_only_mining_pool.Engine.Cryptonote.Blob.Written.{
  KeyOutput, NodeBlock, output_text, outputs_text, header_text, rct_text, miner_tx_text, blob_text,
  IsKey, length-outputs_text, length-join, rct_text_old, rct_text_new, IsBlock, spans_of,
}

key_size-IsKey : (o : KeyOutput) → IsKey o → key_size o.tag ≡ good (length o.key)
unfolding key_size
key_size-IsKey o (fits, inl (tag, size)) = rw (tag, size) refl
key_size-IsKey o (fits, inr (tag, size)) = rw (tag, size) refl

outputs_lem :
    (b : Bytes) (os : List KeyOutput) (fuel pos : ℕ) (rest : Bytes)
    → length os ≤ fuel
    → All IsKey os
    → At b pos (outputs_text os ++ rest)
    → (q : ℕ) × (skip_outputs fuel b (length os) pos ≡ good q) × At b q rest
unfolding skip_outputs outputs_text output_text skip_key
outputs_lem b [] fuel pos rest h k at = (pos, refl, at)
outputs_lem b (o ∷ os) zero pos rest h k at = absurd (omega arith)
outputs_lem b (o ∷ os) (suc fuel) pos rest h k at =
    let behind : Bytes = outputs_text os ++ rest in
    let at' : At b pos (varint o.amount ++ ((o.tag ∷ o.key) ++ behind)) =
      At-append b pos (varint o.amount) (o.tag ∷ o.key) behind
        (At-append b pos (output_text o) (outputs_text os) rest at) in
    let (amount, at_tag) = At-varint b pos o.amount _ k.0.0 at' in
    let (tag, at_key) = At-byte b _ o.tag (o.key ++ behind) at_tag in
    let next = At-behind b _ o.key behind at_key in
    let (q, more, at_end) = outputs_lem b os fuel _ rest (omega arith) k.1 next in
    (q, rw (amount, tag, key_size-IsKey o k.0, within-At b _ behind next) more, at_end)

hashes_lem :
    (b : Bytes) (hs : List Bytes) (fuel pos : ℕ)
    → length hs ≤ fuel
    → All (λ h. length h ≡ 32) hs
    → At b pos (join hs)
    → read_hashes fuel b (length hs) pos ≡ good hs
unfolding read_hashes
hashes_lem b [] fuel pos l k at = ground (arith, At-end b pos [] at)
hashes_lem b (h ∷ hs) zero pos l k at = absurd (omega arith)
hashes_lem b (h ∷ hs) (suc fuel) pos l k at =
    let next : At b (pos + 32) (join hs) =
      subst (λ n. At b (pos + n) (join hs)) k.0 (At-behind b pos h (join hs) at) in
    let taken : slice b pos (pos + 32) ≡ h =
      subst (λ n. slice b pos (pos + n) ≡ h) k.0 (slice-At b pos h (join hs) at) in
    rw
      (
        within-At b (pos + 32) (join hs) next,
        hashes_lem b hs fuel (pos + 32) (omega arith) k.1 next,
        taken,
      )
      refl

is_at_lem : (b : Bytes) (pos c : ℕ) → get_elem? b pos ≡ some c → is_at b pos c ≡ true
unfolding is_at
is_at_lem b pos c e = let same : (c == c) ≡ true = ground arith in rw (is_at, e) same

skip_extra_lem :
    (b : Bytes) (pos : ℕ) (extra rest : Bytes)
    → length b < 2 ^ 63
    → At b pos (extra ++ rest)
    → skip_extra b (length extra) pos ≡ good (pos + length extra)
unfolding skip_extra
skip_extra_lem b pos extra rest h at =
    let next = At-behind b pos extra rest at in
    let inside = At-end b (pos + length extra) rest next in
    let wraps : (pos + length extra) % 2 ^ 64 ≡ pos + length extra = omega (arith, inside) in
    let low : ltb (pos + length extra) (2 ^ 63) ≡ true = ground (arith, inside) in
    rw (wraps, low) (within-At b (pos + length extra) rest next)

rct_lem :
    (b : Bytes) (ver pos : ℕ) (rest : Bytes)
    → At b pos (rct_text ver ++ rest)
    → (q : ℕ) × (skip_rct b ver pos ≡ good q) × At b q rest
unfolding skip_rct rct_text
rct_lem b ver pos rest at = elim (Bool-cases (ltb ver 2)) [
  | inl old ↦
      (pos, rw (skip_rct, old) refl, subst (λ t. At b pos (t ++ rest)) (rct_text_old ver old) at)
  | inr new ↦
      let (zero_byte, next) =
        At-byte b pos 0 rest (subst (λ t. At b pos (t ++ rest)) (rct_text_new ver new) at) in
      (pos + 1, rw (skip_rct, new, is_at_lem b pos 0 zero_byte) refl, next)
]

header_lem :
    (b : Bytes) (k : NodeBlock) (rest : Bytes)
    → IsBlock k
    → At b 0 (header_text k ++ (k.nonce ++ rest))
    → (n : ℕ) × (skip_header b ≡ good n) × At b n (k.nonce ++ rest)
unfolding skip_header header_text
header_lem b k rest is at =
    let behind : Bytes = k.nonce ++ rest in
    let at1 =
      At-append b 0 (varint k.major) (varint k.minor ++ (varint k.timestamp ++ k.prev)) behind at in
    let (major, at2) = At-varint b 0 k.major _ is.major_fits at1 in
    let (minor, at3) =
      At-varint b _ k.minor _ is.minor_fits
        (At-append b _ (varint k.minor) (varint k.timestamp ++ k.prev) behind at2) in
    let (timestamp, at4) =
      At-varint b _ k.timestamp _ is.timestamp_fits
        (At-append b _ (varint k.timestamp) k.prev behind at3) in
    let p3 : ℕ =
      0 + length (varint k.major) + length (varint k.minor) + length (varint k.timestamp) in
    let at5 : At b (p3 + 32) behind =
      subst (λ n. At b (p3 + n) behind) is.prev_size (At-behind b p3 k.prev behind at4) in
    let at6 : At b (p3 + 32 + 4) rest =
      subst (λ n. At b (p3 + 32 + n) rest) is.nonce_size (At-behind b (p3 + 32) k.nonce rest at5) in
    let sum : p3 + 32 + 4 ≡ p3 + 36 = omega arith in
    let fits : within b (p3 + 36) ≡ good (p3 + 36) =
      within-At b (p3 + 36) rest (subst (λ n. At b n rest) sum at6) in
    (p3 + 32, rw (major, minor, timestamp, fits) refl, at5)

miner_tx_lem :
    (b : Bytes) (k : NodeBlock) (pos : ℕ) (rest : Bytes)
    → IsBlock k
    → length b < 2 ^ 63
    → At b pos (miner_tx_text k ++ rest)
    → (q : ℕ) × (skip_miner_tx b pos ≡ good (k.version, q)) × At b q rest
unfolding skip_miner_tx miner_tx_text skip_gen
miner_tx_lem b k pos rest is h at =
    let (version, at1) = At-number b pos k.version _ rest is.version_fits at in
    let (unlock, at2) = At-number b _ k.unlock_time _ rest is.unlock_time_fits at1 in
    let (vin, at3) = At-number b _ 1 _ rest (omega arith) at2 in
    let (gen, at4) = At-byte b _ 255 _ at3 in
    let (height, at5) = At-number b _ k.height _ rest is.height_fits at4 in
    let at5' = At-append b _ (varint (length k.outputs)) _ rest at5 in
    let texts =
      At-append b _ (outputs_text k.outputs) _ rest
        (At-behind b _ (varint (length k.outputs)) _ at5') in
    let few : length k.outputs ≤ length b =
      omega
        (arith, length-outputs_text k.outputs, length-At b _ (outputs_text k.outputs) _ texts) in
    let (vout, at6) = At-number b _ (length k.outputs) _ rest (omega (arith, few, h)) at5 in
    let (p7, outputs, at7) =
      outputs_lem b k.outputs (length b) _ _ few is.keys
        (At-append b _ (outputs_text k.outputs) _ rest at6) in
    let extras = At-append b _ k.extra _ rest (
      At-behind b p7 (varint (length k.extra)) _
        (At-append b p7 (varint (length k.extra)) _ rest at7)) in
    let short : length k.extra ≤ length b = length-At b _ k.extra _ extras in
    let (extra_len, at8) = At-number b p7 (length k.extra) _ rest (omega (arith, short, h)) at7 in
    let at9 = At-append b _ k.extra (rct_text k.version) rest at8 in
    let extra = skip_extra_lem b _ k.extra _ h at9 in
    let (q, rct, at10) = rct_lem b k.version _ rest (At-behind b _ k.extra _ at9) in
    (
      q,
      rw (version, unlock, vin, is_at_lem b _ 255 gen, height, vout, outputs, extra_len, extra, rct)
          refl,
      at10,
    )

At-blob :
    (k : NodeBlock)
    → At (blob_text k) 0 (
        header_text k
        ++ (k.nonce ++ (miner_tx_text k ++ (varint (length k.hashes) ++ join k.hashes))))
unfolding blob_text
At-blob k = At-start (blob_text k)

-- Positions with the same bytes behind them are the same.
At-same : (b : Bytes) (p q : ℕ) (rest : Bytes) → At b p rest → At b q rest → p ≡ q
At-same b p q rest x y = omega (arith, At-end b p rest x, At-end b q rest y)

-- parseBlockBlob of a block as its nodes write it finds its parts: where the nonce stands, where the miner's
-- transaction begins and ends, its version, and the hashes of the other transactions. The process has to
-- have room for their list.
pub parse_block_blob-blob_text :
    (has_room : ℕ → Bool) (k : NodeBlock)
    → IsBlock k
    → has_room (length k.hashes) ≡ true
    → parse_block_blob has_room (blob_text k) ≡ good (spans_of k)
unfolding parse_block_blob make_hashes spans_of
parse_block_blob-blob_text has_room k is room =
    let b : Bytes = blob_text k in
    let tail : Bytes = varint (length k.hashes) ++ join k.hashes in
    let start : At b 0 (header_text k ++ (k.nonce ++ (miner_tx_text k ++ tail))) = At-blob k in
    let (n, header, at1) = header_lem b k (miner_tx_text k ++ tail) is start in
    let nonce_at : n ≡ length (header_text k) =
      omega (arith, At-same b n _ _ at1 (At-behind b 0 (header_text k) _ start)) in
    let at2 : At b (n + 4) (miner_tx_text k ++ tail) =
      subst (λ m. At b (n + m) (miner_tx_text k ++ tail)) is.nonce_size
        (At-behind b n k.nonce _ at1) in
    let (q, tx, at3) = miner_tx_lem b k (n + 4) tail is is.size at2 in
    let end_at : q ≡ n + 4 + length (miner_tx_text k) =
      At-same b q _ tail at3 (At-behind b (n + 4) (miner_tx_text k) tail at2) in
    let few : length k.hashes ≤ length b = omega (
      arith,
      length-join k.hashes is.hash_sizes,
      At-end b q tail at3,
      length-append (varint (length k.hashes)) (join k.hashes),
    ) in
    let (count, at4) =
      At-varint b q (length k.hashes) (join k.hashes) (omega (arith, few, is.size)) at3 in
    let hashes = hashes_lem b k.hashes (length b) _ few is.hash_sizes at4 in
    rw (header, tx, count, room, hashes, end_at, nonce_at) refl
