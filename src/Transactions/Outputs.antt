-- ===== src/Transactions/Outputs.antt =====
-- transactions/transactions.go, GenerateOutputTransactions: who is paid by a block, and in which bytes.
use not_only_mining_pool.Common.{
  ℕ, ◌+◌, ◌-◌, ◌%◌, ◌^◌, Option, none, some, List, [], ◌∷◌, ◌++◌, Bytes, map, join, length,
}
use not_only_mining_pool.Common.Fallible.{◌>>=◌}
use not_only_mining_pool.Common.Float.{Float64}
use not_only_mining_pool.Utils.Hex.{hex_decode}
use not_only_mining_pool.Utils.Pack.{pack_uint64_le, pack_uint64_be}
use not_only_mining_pool.Utils.Varint.{var_int_bytes}
use not_only_mining_pool.Utils.Script.{p2pkh_address_to_script}
use not_only_mining_pool.Jobs.Template.{PayeeParams, Template}

-- What one output pays, and to which script.
pub record Output : Type 0 where
  pub amount : ℕ
  pub script : Bytes

-- The buffer that the code joins for an output.
unfoldable pub output_bytes : Output → Bytes
output_bytes o = pack_uint64_le o.amount ++ (var_int_bytes (length o.script) ++ o.script)

-- And the one for a masternode: highest byte first, and the script is left out.
unfoldable pub masternode_bytes : Output → Bytes
masternode_bytes o = pack_uint64_be o.amount ++ var_int_bytes (length o.script)

-- The outputs of a block in their order: the witness commitment and the pool's, the masternodes', and
-- those of the superblocks, the payee and the recipients.
pub record Outputs : Type 0 where
  pub front : List Output
  pub masternodes : List Output
  pub back : List Output

-- Their count and their buffers.
unfoldable pub outputs_bytes : Outputs → Bytes
unfolding output_bytes masternode_bytes
outputs_bytes outs =
    var_int_bytes (length outs.front + length outs.masternodes + length outs.back)
    ++ (join (map output_bytes outs.front)
        ++ (join (map masternode_bytes outs.masternodes) ++ join (map output_bytes outs.back)))

-- A difference of uint64s.
abbrev pub minus64 : ℕ → ℕ → ℕ
minus64 a b = (a + (2 ^ 64 - b % 2 ^ 64)) % 2 ^ 64

-- `reward -= payeeReward` for each of the outputs
unfoldable pub pay_out : ℕ → List Output → ℕ
pay_out reward [] = reward
pay_out reward (o ∷ os) = pay_out (minus64 reward o.amount) os

module _ (decode : Bytes → Option Bytes) where
  -- The script of a masternode or superblock: its own, or that of its address.
  unfoldable pub payee_output : PayeeParams → Option Output
  payee_output p = elim p.script [
    | c ∷ cs ↦ some (record { amount = p.amount; script = hex_decode (c ∷ cs) })
    | [] ↦ do
      script ← p2pkh_address_to_script decode p.payee
      some (record { amount = p.amount; script = script })
  ]

  unfoldable pub payee_outputs : List PayeeParams → Option (List Output)
  unfolding payee_output
  payee_outputs [] = some []
  payee_outputs (p ∷ ps) = do o ← payee_output p; os ← payee_outputs ps; some (o ∷ os)

  module _ (fl : Float64) where
    open fl use {F, of_nat, mul, div, floor, ceil}

    -- A recipient: the fraction of the reward, and what GetScript gives for its address.
    pub record Recipient : Type 0 where
      pub script : Bytes
      pub percent : F

    -- What the template's payee gets of the reward: its amount, or a fifth.
    unfoldable pub payee_reward : Option ℕ → ℕ → ℕ
    payee_reward (some amount) reward = amount
    payee_reward none reward = ceil (div (of_nat reward) (of_nat 5))

    unfoldable pub single_payee : Template → ℕ → Option (List Output)
    unfolding payee_reward
    single_payee t reward = elim t.payee [
      | none ↦ some []
      | some addr ↦ do
        script ← p2pkh_address_to_script decode addr
        some (record { amount = payee_reward t.payee_amount reward; script = script } ∷ [])
    ]

    unfoldable pub recipient_outputs : ℕ → List Recipient → List Output
    recipient_outputs reward [] = []
    recipient_outputs reward (r ∷ rs) =
        record { amount = floor (mul r.percent (of_nat reward)); script = r.script }
        ∷ recipient_outputs reward rs

    unfoldable pub witness_output : Template → List Output
    witness_output t = elim t.default_witness_commitment [
      | [] ↦ []
      | c ∷ cs ↦ record { amount = 0; script = hex_decode (c ∷ cs) } ∷ []
    ]

    -- What is left of the reward goes to the recipients and then to the pool.
    unfoldable pub arrange :
        Bytes → List Recipient → Template → List Output → List Output → List Output → Outputs
    unfolding recipient_outputs witness_output
    arrange pool_recipient recipients t masternodes superblocks payee =
        let reward = pay_out (pay_out (pay_out t.coinbase_value masternodes) superblocks) payee in
        let shared = recipient_outputs reward recipients in
        let pool : Output = record { amount = pay_out reward shared; script = pool_recipient } in
        record {
          front = witness_output t ++ (pool ∷ []);
          masternodes = masternodes;
          back = superblocks ++ (payee ++ shared);
        }

    -- GenerateOutputTransactions, what it pays.
    unfoldable pub outputs_of : Bytes → List Recipient → Template → Option Outputs
    unfolding payee_outputs single_payee arrange
    outputs_of pool_recipient recipients t = do
      masternodes ← payee_outputs t.masternode
      superblocks ← payee_outputs t.superblock
      payee ← single_payee t (pay_out (pay_out t.coinbase_value masternodes) superblocks)
      some (arrange pool_recipient recipients t masternodes superblocks payee)

    -- GenerateOutputTransactions, its result.
    unfoldable pub generate_output_transactions : Bytes → List Recipient → Template → Option Bytes
    unfolding outputs_of outputs_bytes
    generate_output_transactions pool_recipient recipients t = do
      outs ← outputs_of pool_recipient recipients t
      some (outputs_bytes outs)
