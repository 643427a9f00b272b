-- ===== src/Transactions/Generation.antt =====
-- transactions/transactions.go, CreateGeneration: the two halves of the coinbase transaction.
pub mod ScriptSig
use not_only_mining_pool.Common.{
  ℕ, ◌+◌, ◌-◌, ◌*◌, ◌%◌, ◌^◌, Bool, true, false, Option, none, some, List, [], ◌∷◌, ◌++◌, Bytes,
  codes, length, replicate, if◌then◌else◌, text_eq,
}
use not_only_mining_pool.Common.Fallible.{◌>>=◌}
use not_only_mining_pool.Common.Float.{Float64}
use not_only_mining_pool.Utils.Hex.{hex_decode}
use not_only_mining_pool.Utils.Number.{serialize_number}
use not_only_mining_pool.Utils.Pack.{pack_uint32_le}
use not_only_mining_pool.Utils.Varint.{var_int_bytes, serialize_string}
use not_only_mining_pool.Jobs.Template.{Template}
use not_only_mining_pool.Jobs.Job.{uint256_bytes_from_hash}
use not_only_mining_pool.Transactions.Outputs.{Recipient, generate_output_transactions}

-- txVersion, with txType 5 in its upper half where the template has a payload.
unfoldable pub tx_version : Bool → Bytes → ℕ
tx_version tx_messages [] = if tx_messages then 2 else 1
tx_version tx_messages (c ∷ payload) = 3 + 5 * 2 ^ 16

unfoldable pub tx_timestamp : Template → Bytes → Bytes
tx_timestamp t reward = if text_eq reward (codes "POS") then pack_uint32_le t.cur_time else []

unfoldable pub tx_comment : Bool → Bytes
tx_comment tx_messages = if tx_messages then serialize_string (codes "by Command") else []

-- The script of the input in front of the extra nonce. `now` is the Unix time.
unfoldable pub script_sig_part1 : Template → ℕ → Bytes → Option Bytes
script_sig_part1 t now placeholder = do
  height ← serialize_number t.height
  time ← serialize_number now
  some (height ++ (hex_decode t.coinbase_aux_flags ++ (time ++ (length placeholder % 256 ∷ []))))

unfoldable pub script_sig_part2 : Bytes
script_sig_part2 = serialize_string (codes "/by Command/")

-- What stands in front of the length of that script.
unfoldable pub generation_start : Template → Bytes → Bool → Bytes
unfolding tx_version tx_timestamp
generation_start t reward tx_messages =
    pack_uint32_le (tx_version tx_messages t.coinbase_payload)
    ++ (tx_timestamp t reward
        ++ (var_int_bytes 1 ++ (uint256_bytes_from_hash [] ++ pack_uint32_le (2 ^ 32 - 1))))

-- What stands behind the script: the sequence, the outputs, the lock time, the comment and the payload.
unfoldable pub generation_end : Template → Bool → Bytes → Bytes
unfolding tx_comment
generation_end t tx_messages outputs =
    let extra_payload = hex_decode t.coinbase_payload in
    pack_uint32_le 0
    ++ (outputs
        ++ (pack_uint32_le 0
            ++ (tx_comment tx_messages
                ++ (if text_eq extra_payload []
                    then []
                    else var_int_bytes (length extra_payload) ++ extra_payload))))

module _ (decode : Bytes → Option Bytes) (fl : Float64) where
  -- CreateGeneration
  unfoldable pub create_generation :
      Template
      → ℕ
      → Bytes
      → Bytes
      → Bytes
      → Bool
      → List (Recipient decode fl)
      → Option (Bytes × Bytes)
  create_generation t now public_key placeholder reward tx_messages recipients = do
    part1 ← script_sig_part1 t now placeholder
    outputs ← generate_output_transactions decode fl public_key recipients t
    let size = length part1 + length placeholder + length script_sig_part2
    some (
      generation_start t reward tx_messages ++ (var_int_bytes size ++ part1),
      script_sig_part2 ++ generation_end t tx_messages outputs,
    )
