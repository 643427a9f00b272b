-- ===== src/Examples/Coinbases.antt =====
-- Coinbases of a template that pays the pool, a payee and a fee.
use not_only_mining_pool.Common.{
  ◌+◌, ◌%◌, ◌^◌, ◌≡◌, refl, [], ◌∷◌, ◌++◌, Bytes, true, none, some, codes, replicate, length, arith,
}
use not_only_mining_pool.Utils.Hex.{hex_decode, hex_value}
use not_only_mining_pool.Utils.Number.{serialize_number}
use not_only_mining_pool.Utils.Script.{p2pkh_address_to_script, address_payload}
use not_only_mining_pool.Merkle.{calculate_steps, with_first}
use not_only_mining_pool.Merkle.Root.{merkle_root, with_first-calculate_steps}
use not_only_mining_pool.Jobs.Template.{Template}
use not_only_mining_pool.Transactions.Outputs.{
  Outputs, Recipient, pay_out, payee_outputs, payee_output, payee_reward, single_payee,
  recipient_outputs, witness_output, arrange, outputs_of, generate_output_transactions,
}
use not_only_mining_pool.Transactions.Layout.{
  total, read_output_vector, outputs_of-total, generate_output_transactions_lem,
}
use not_only_mining_pool.Transactions.Generation.{script_sig_part1, create_generation}
use not_only_mining_pool.Transactions.Generation.ScriptSig.{
  coinbase_script, coinbase_transaction, create_generation_lem,
}
use not_only_mining_pool.Examples.Numbers.{cents}
use not_only_mining_pool.Examples.Mining.{decode, template}

abbrev recipient : Recipient decode cents
recipient = record { script = 1 ∷ 2 ∷ []; percent = 10 }

abbrev paying : Template
paying = record template {
  superblock = record { payee = []; script = codes "6a"; amount = 500 } ∷ [];
  payee = some (replicate 25 0);
  payee_amount = some 1000;
}

abbrev outputs : Outputs
outputs = elim (outputs_of decode cents (81 ∷ []) (recipient ∷ []) paying) [
  | none ↦ record { front = []; masternodes = []; back = [] }
  | some outs ↦ outs
]

found : outputs_of decode cents (81 ∷ []) (recipient ∷ []) paying ≡ some outputs
unfolding outputs_of payee_outputs payee_output single_payee p2pkh_address_to_script address_payload
found = refl

outputs_of-total_example :
    (total outputs.front + total outputs.masternodes + total outputs.back) % 2 ^ 64 ≡ 5000
outputs_of-total_example =
    outputs_of-total decode cents (81 ∷ []) (recipient ∷ []) paying outputs found (omega arith)

generate_output_transactions_lem_example :
    (bytes : Bytes) × (generate_output_transactions decode cents (81 ∷ []) (recipient ∷ []) paying
      ≡ some bytes)
    × (read_output_vector bytes ≡ some (outputs.front ++ outputs.back))
unfolding outputs_of payee_outputs payee_output single_payee p2pkh_address_to_script address_payload
    arrange witness_output recipient_outputs pay_out hex_decode hex_value payee_reward
generate_output_transactions_lem_example =
    generate_output_transactions_lem decode cents (81 ∷ []) (recipient ∷ []) paying outputs found
      refl
      (
        (omega arith, omega arith),
        (
          (omega arith, omega arith),
          (
            (omega arith, omega arith),
            ((omega arith, omega arith), ((omega arith, omega arith), tt)),
          ),
        ),
      )
      (omega arith)

with_first-calculate_steps_example :
    with_first
      (λ b. length b ∷ b)
      (calculate_steps (λ b. length b ∷ b) ([] ∷ (1 ∷ []) ∷ (2 ∷ []) ∷ []))
      (3 ∷ [])
    ≡ merkle_root (λ b. length b ∷ b) ((3 ∷ []) ∷ (1 ∷ []) ∷ (2 ∷ []) ∷ [])
with_first-calculate_steps_example =
    with_first-calculate_steps (λ b. length b ∷ b) ((1 ∷ []) ∷ (2 ∷ []) ∷ []) (3 ∷ [])

abbrev halves : Bytes × Bytes
halves =
    elim (create_generation decode cents paying 1000 (81 ∷ []) (replicate 8 0) (codes "POW") true
      (recipient ∷ [])) [ none ↦ ([], []) | some h ↦ h ]

generated :
    create_generation decode cents paying 1000
      (81 ∷ [])
      (replicate 8 0)
      (codes "POW")
      true
      (recipient ∷ [])
    ≡ some (halves.0, halves.1)
unfolding create_generation script_sig_part1 serialize_number generate_output_transactions
    outputs_of payee_outputs payee_output single_payee p2pkh_address_to_script address_payload
generated = refl

create_generation_lem_example :
    (height : Bytes) × (time : Bytes) × (outputs : Bytes) × (serialize_number paying.height
      ≡ some height)
    × (serialize_number 1000 ≡ some time)
    × (generate_output_transactions decode cents (81 ∷ []) (recipient ∷ []) paying ≡ some outputs)
    × (halves.0 ++ (replicate 8 5 ++ halves.1)
        ≡ coinbase_transaction paying
            (codes "POW")
            true
            (coinbase_script height (hex_decode paying.coinbase_aux_flags) time (replicate 8 5))
            outputs)
create_generation_lem_example =
    create_generation_lem decode cents paying 1000 (81 ∷ []) (replicate 8 0) (codes "POW") true
      (recipient ∷ []) (replicate 8 5) {first = halves.0} {second = halves.1} generated refl
