-- ===== src/Jobs/Job.antt =====
-- jobs/job.go: a job, the bytes of its coinbase, header and block, and the submissions that it has seen.
pub mod Header
pub mod Register
use not_only_mining_pool.Common.Fallible.{◌>>=◌}
use not_only_mining_pool.Common.{
  ℕ, ◌+◌, Bool, true, false, Option, none, some, List, [], ◌∷◌, ◌++◌, Bytes, map, length, take,
  drop, replicate, ltb, if◌then◌else◌, text_eq, codes, Signed, plus,
}
use not_only_mining_pool.Utils.Hex.{hex_encode, hex_decode, is_hex, parse_hex}
use not_only_mining_pool.Utils.Compact.{big_int_from_bits_hex}
use not_only_mining_pool.Utils.Varint.{var_int_bytes}
use not_only_mining_pool.Utils.Pack.{pack_uint32_be, pack_int32_be}
use not_only_mining_pool.Utils.Reverse.{reverse_bytes, reverse_byte_order}
use not_only_mining_pool.Utils.Search.{strings_index_of}
use not_only_mining_pool.Jobs.Template.{TxParams, Template}

-- Job, with the two halves of GenerationTransaction and the steps of MerkleTree. Difficulty, which is
-- only logged, is left out.
pub record Job : Type 0 where
  pub template : Template
  pub submits : List Bytes
  pub generation1 : Bytes
  pub generation2 : Bytes
  pub job_id : Bytes
  pub prev_hash_reversed : Bytes
  pub merkle_branch : List Bytes
  pub target : Signed
  pub transaction_data : Bytes
  pub reward : Bytes
  pub merkle_steps : List Bytes

-- `copy(dst[pos:], src)`: what fits is written. `none` is the panic of a slice beyond the end.
unfoldable pub copy_at : ℕ → Bytes → Bytes → Option Bytes
copy_at pos src dst =
    if ltb (length dst) pos
    then none
    else let room = drop pos dst in
      some (take pos dst ++ (take (length room) src ++ drop (length src) room))

-- SerializeHeader. PutUint32 panics where fewer than four bytes are left.
unfoldable pub serialize_header : Template → Bytes → Bytes → Bytes → Option Bytes
serialize_header t merkle_root n_time nonce =
    let bits = hex_decode t.bits in
    let prev_hash = hex_decode t.previous_block_hash in
    let at_bits = length nonce in
    let at_time = at_bits + length bits in
    let at_root = at_time + length n_time in
    let at_prev = at_root + length merkle_root in
    let at_version = at_prev + length prev_hash in
    do
      h1 ← copy_at 0 nonce (replicate 80 0)
      h2 ← copy_at at_bits bits h1
      h3 ← copy_at at_time n_time h2
      h4 ← copy_at at_root merkle_root h3
      h5 ← copy_at at_prev prev_hash h4
      header ←
          if ltb 80 (at_version + 4) then none else copy_at at_version (pack_uint32_be t.version) h5
      some (reverse_bytes header)

-- SerializeCoinbase
unfoldable pub serialize_coinbase : Job → Bytes → Bytes → Bytes
serialize_coinbase j extra_nonce1 extra_nonce2 =
    j.generation1 ++ (extra_nonce1 ++ (extra_nonce2 ++ j.generation2))

-- GetVoteData: only their number is written.
unfoldable pub get_vote_data : Template → Bytes
get_vote_data t = if t.masternode_payments then var_int_bytes (length t.votes) else []

-- SerializeBlock
unfoldable pub serialize_block : Job → Bytes → Bytes → Bytes
unfolding get_vote_data
serialize_block j header coinbase =
    header
    ++ (var_int_bytes (length j.template.transactions + 1)
        ++ (coinbase
            ++ (j.transaction_data
                ++ (get_vote_data j.template
                    ++ (if text_eq j.reward (codes "POS") then 0 ∷ [] else [])))))

-- RegisterSubmit
unfoldable pub register_submit : Job → Bytes → Bytes → Bytes → Bytes → Bool × Job
register_submit j extra_nonce1 extra_nonce2 n_time nonce =
    let submission = extra_nonce1 ++ (extra_nonce2 ++ (n_time ++ nonce)) in
    elim (strings_index_of j.submits submission) [
      | none ↦ (true, record j { submits = j.submits ++ (submission ∷ []) })
      | some i ↦ (false, j)
    ]

-- Uint256BytesFromHash: thirty-two bytes, turned round.
unfoldable pub uint256_bytes_from_hash : Bytes → Bytes
uint256_bytes_from_hash h =
    let bytes = take 32 (hex_decode h) in
    reverse_bytes (bytes ++ drop (length bytes) (replicate 32 0))

-- The hash of one transaction; with neither a txid nor a hash the pool panics.
unfoldable pub transaction_hash : TxParams → Option Bytes
unfolding uint256_bytes_from_hash
transaction_hash tx = elim tx.tx_id [
  | b ∷ id ↦ some (uint256_bytes_from_hash (b ∷ id))
  | [] ↦ elim tx.hash [ b ∷ h ↦ some (uint256_bytes_from_hash (b ∷ h)) | [] ↦ none ]
]

unfoldable pub transaction_hashes : List TxParams → Option (List Bytes)
unfolding transaction_hash
transaction_hashes [] = some []
transaction_hashes (tx ∷ txs) = do
  h ← transaction_hash tx
  hs ← transaction_hashes txs
  some (h ∷ hs)

-- GetTransactionBytes: nil in the place of the coinbase.
unfoldable pub get_transaction_bytes : List TxParams → Option (List Bytes)
unfolding transaction_hashes
get_transaction_bytes txs = do hs ← transaction_hashes txs; some ([] ∷ hs)

-- The transactions of a block, one after the other; a text that is not hexadecimal panics.
unfoldable pub decode_transactions : List TxParams → Option Bytes
decode_transactions [] = some []
decode_transactions (tx ∷ txs) =
    if is_hex tx.raw
    then (do rest ← decode_transactions txs; some (hex_decode tx.raw ++ rest))
    else none

-- The target of the template, or what its bits stand for. A text that is no number leaves a nil pointer,
-- and its use panics.
unfoldable pub target_of : Template → Option Signed
target_of t = elim t.target [
  | [] ↦ (do n ← big_int_from_bits_hex t.bits; some (plus n))
  | c ∷ cs ↦ parse_hex (c ∷ cs)
]
