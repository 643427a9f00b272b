-- ===== src/Engine/Cryptonote/Blob/Written.antt =====
-- Cryptonote blocks as their nodes write them, which engine/cryptonote/blob.go reads.
use not_only_mining_pool.Common.{
  ◌⊎◌, ℕ, ◌+◌, ◌≤◌, ◌<◌, ◌^◌, ◌≡◌, refl, true, false, List, [], ◌∷◌, ◌++◌, Bytes, length,
  length-append, join, All, arith, ltb, if◌then◌else◌,
}
use not_only_mining_pool.Engine.Cryptonote.Varint.{varint}
use not_only_mining_pool.Engine.Cryptonote.Blob.{ParsedBlock}

-- An output of the miner's transaction, with its tag and its key.
pub record KeyOutput : Type 0 where
  pub amount : ℕ
  pub tag : ℕ
  pub key : Bytes

-- A Cryptonote block as its nodes write it.
pub record NodeBlock : Type 0 where
  pub major : ℕ
  pub minor : ℕ
  pub timestamp : ℕ
  pub prev : Bytes
  pub nonce : Bytes
  pub version : ℕ
  pub unlock_time : ℕ
  pub height : ℕ
  pub outputs : List KeyOutput
  pub extra : Bytes
  pub hashes : List Bytes

unfoldable pub output_text : KeyOutput → Bytes
output_text o = varint o.amount ++ (o.tag ∷ o.key)

unfoldable pub outputs_text : List KeyOutput → Bytes
outputs_text [] = []
outputs_text (o ∷ os) = output_text o ++ outputs_text os

-- The numbers and the previous hash of a header, without its nonce.
unfoldable pub header_text : NodeBlock → Bytes
header_text k = varint k.major ++ (varint k.minor ++ (varint k.timestamp ++ k.prev))

unfoldable pub rct_text : ℕ → Bytes
rct_text ver = if ltb ver 2 then [] else 0 ∷ []

unfoldable pub miner_tx_text : NodeBlock → Bytes
miner_tx_text k =
    varint k.version
    ++ (varint k.unlock_time
        ++ (varint 1
            ++ (255
                ∷ (varint k.height
                    ++ (varint (length k.outputs)
                        ++ (outputs_text k.outputs
                            ++ (varint (length k.extra) ++ (k.extra ++ rct_text k.version))))))))

unfoldable pub blob_text : NodeBlock → Bytes
blob_text k =
    header_text k ++ (k.nonce ++ (miner_tx_text k ++ (varint (length k.hashes) ++ join k.hashes)))

-- A key of 32 bytes, or of 33 with a view tag.
abbrev pub IsKey : KeyOutput → Type 0
IsKey o =
    (o.amount < 2 ^ 64)
    × (((o.tag ≡ 2) × (length o.key ≡ 32)) ⊎ ((o.tag ≡ 3) × (length o.key ≡ 33)))

-- Each output has a byte at least, and each hash.
pub length-outputs_text : (os : List KeyOutput) → length os ≤ length (outputs_text os)
unfolding outputs_text output_text
length-outputs_text [] = omega arith
length-outputs_text (o ∷ os) = omega (
  arith,
  length-append (output_text o) (outputs_text os),
  length-append (varint o.amount) (o.tag ∷ o.key),
  length-outputs_text os,
)

pub length-join : (hs : List Bytes) → All (λ h. length h ≡ 32) hs → length hs ≤ length (join hs)
length-join [] a = omega arith
length-join (h ∷ hs) a = omega (arith, length-append h (join hs), a.0, length-join hs a.1)

pub rct_text_old : (ver : ℕ) → ltb ver 2 ≡ true → rct_text ver ≡ []
unfolding rct_text
rct_text_old ver e = rw e refl

pub rct_text_new : (ver : ℕ) → ltb ver 2 ≡ false → rct_text ver ≡ 0 ∷ []
unfolding rct_text
rct_text_new ver e = rw e refl

-- A block as its nodes write it: numbers and sizes in their ranges.
pub record IsBlock (k : NodeBlock) : Type 0 where
  pub major_fits : k.major < 2 ^ 64
  pub minor_fits : k.minor < 2 ^ 64
  pub timestamp_fits : k.timestamp < 2 ^ 64
  pub prev_size : length k.prev ≡ 32
  pub nonce_size : length k.nonce ≡ 4
  pub version_fits : k.version < 2 ^ 64
  pub unlock_time_fits : k.unlock_time < 2 ^ 64
  pub height_fits : k.height < 2 ^ 64
  pub keys : All IsKey k.outputs
  pub hash_sizes : All (λ h. length h ≡ 32) k.hashes
  pub size : length (blob_text k) < 2 ^ 63

-- What parseBlockBlob should find in a block.
unfoldable pub spans_of : NodeBlock → ParsedBlock
spans_of k = record {
  blob = blob_text k;
  nonce_offset = length (header_text k);
  header_end = length (header_text k) + 4;
  miner_tx_end = length (header_text k) + 4 + length (miner_tx_text k);
  miner_tx_ver = k.version;
  tx_count = length k.hashes;
  tx_hashes = k.hashes;
}
