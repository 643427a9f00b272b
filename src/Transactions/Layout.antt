-- ===== src/Transactions/Layout.antt =====
-- The bytes of GenerateOutputTransactions, read by a reader of Bitcoin's outputs, and their amounts.
use native.Mathlib.Nat.{mod-eq_of_lt}
use not_only_mining_pool.Common.{
  subst, ℕ, zero, suc, ◌+◌, ◌%◌, ◌^◌, ◌<◌, ◌≡◌, false, refl, sym, ap, ◌∙◌, Option, none, some, List,
  [], ◌∷◌, ◌++◌, Bytes, All, map, join, length, take, drop, append_assoc, length-append,
  take-length-append, drop-length-append, arith, ltb, if◌then◌else◌,
}
use not_only_mining_pool.Common.Fallible.{◌>>=◌, >>=-some, >>=-eq-some}
use not_only_mining_pool.Common.Float.{Float64}
use not_only_mining_pool.Utils.Pack.{put_le, pack_uint64_le}
use not_only_mining_pool.Utils.Varint.{var_int_bytes}
use not_only_mining_pool.Utils.Varint.RoundTrip.{
  read_le, read_var_int, read_le-put_le, read_var_int-var_int_bytes,
}
use not_only_mining_pool.Jobs.Template.{Template}
use not_only_mining_pool.Transactions.Outputs.{
  Output, output_bytes, Outputs, outputs_bytes, minus64, pay_out, payee_outputs, Recipient,
  single_payee, recipient_outputs, witness_output, arrange, outputs_of,
  generate_output_transactions,
}

-- One output: eight bytes of amount, lowest first, the length of the script, and the script.
unfoldable pub read_output : Bytes → Option (Output × Bytes)
read_output bs = do
  (amount, bs1) ← read_le 8 bs
  (size, bs2) ← read_var_int bs1
  if ltb (length bs2) size
      then none
      else some (record { amount = amount; script = take size bs2 }, drop size bs2)

-- So many outputs, and nothing behind them.
unfoldable pub read_outputs : ℕ → Bytes → Option (List Output)
read_outputs zero [] = some []
read_outputs zero (b ∷ bs) = none
read_outputs (suc n) bs = do (o, rest) ← read_output bs; os ← read_outputs n rest; some (o ∷ os)

-- The output vector of a transaction.
unfoldable pub read_output_vector : Bytes → Option (List Output)
unfolding read_outputs
read_output_vector bs = do (n, rest) ← read_var_int bs; read_outputs n rest

-- The widths of the fields.
abbrev pub IsOutput : Output → Type 0
IsOutput o = (o.amount < 2 ^ 64) × (length o.script < 2 ^ 63)

read_output-output_bytes :
    (o : Output) (rest : Bytes) → IsOutput o → read_output (output_bytes o ++ rest) ≡ some (o, rest)
unfolding read_output output_bytes pack_uint64_le
read_output-output_bytes o rest h =
    let amount = put_le 8 o.amount in
    let size = var_int_bytes (length o.script) in
    let long : ltb (length (o.script ++ rest)) (length o.script) ≡ false =
      ground (arith, length-append o.script rest) in
    rw (append_assoc amount (size ++ o.script) rest, append_assoc size o.script rest)
      (>>=-some _ (read_le-put_le 8 o.amount (size ++ (o.script ++ rest)) h.0) (
        >>=-some _ (read_var_int-var_int_bytes (length o.script) (o.script ++ rest) (omega arith))
          (rw (long, take-length-append o.script rest, drop-length-append o.script rest))))

read_outputs-join :
    (os : List Output)
    → All IsOutput os
    → read_outputs (length os) (join (map output_bytes os)) ≡ some os
unfolding read_outputs
read_outputs-join [] h = refl
read_outputs-join (o ∷ os) h =
    >>=-some _ (read_output-output_bytes o (join (map output_bytes os)) h.0)
      (>>=-some _ (read_outputs-join os h.1) refl)

join-map-append :
    (f : Output → Bytes) (xs ys : List Output)
    → join (map f (xs ++ ys)) ≡ join (map f xs) ++ join (map f ys)
join-map-append f [] ys = refl
join-map-append f (x ∷ xs) ys =
    ap (λ t. f x ++ t) (join-map-append f xs ys)
    ∙ sym (append_assoc (f x) (join (map f xs)) (join (map f ys)))

read_output_vector-outputs_bytes :
    (outs : Outputs)
    → outs.masternodes ≡ []
    → All IsOutput (outs.front ++ outs.back)
    → length (outs.front ++ outs.back) < 2 ^ 64
    → read_output_vector (outputs_bytes outs) ≡ some (outs.front ++ outs.back)
unfolding read_output_vector outputs_bytes
read_output_vector-outputs_bytes outs e h k =
    let n = length (outs.front ++ outs.back) in
    let count : length outs.front + 0 + length outs.back ≡ n =
      omega (arith, length-append outs.front outs.back) in
    rw (e, count, ← join-map-append output_bytes outs.front outs.back)
      (>>=-some _
        (read_var_int-var_int_bytes n (join (map output_bytes (outs.front ++ outs.back))) k)
        (read_outputs-join (outs.front ++ outs.back) h))

-- What a list of outputs pays.
unfoldable pub total : List Output → ℕ
total [] = 0
total (o ∷ os) = o.amount + total os

total-append : (xs ys : List Output) → total (xs ++ ys) ≡ total xs + total ys
unfolding total
total-append [] ys = omega arith
total-append (x ∷ xs) ys = omega (arith, total-append xs ys)

pay_out-total :
    (reward : ℕ) (os : List Output) → (pay_out reward os + total os) % 2 ^ 64 ≡ reward % 2 ^ 64
unfolding pay_out total
pay_out-total reward [] = omega arith
pay_out-total reward (o ∷ os) = omega (arith, pay_out-total (minus64 reward o.amount) os)

module _ (decode : Bytes → Option Bytes) (fl : Float64) where
  module _ (pool_recipient : Bytes) (recipients : List (Recipient decode fl)) (t : Template) where
    total-witness_output : total (witness_output decode fl t) ≡ 0
    unfolding total witness_output
    total-witness_output = ground arith

    total-arrange :
        (ms sb payee : List Output)
        → let outs = arrange decode fl pool_recipient recipients t ms sb payee in
          (total outs.front + total outs.masternodes + total outs.back) % 2 ^ 64
          ≡ t.coinbase_value % 2 ^ 64
    unfolding arrange total
    total-arrange ms sb payee =
        let r1 = pay_out t.coinbase_value ms in
        let r2 = pay_out r1 sb in
        let r3 = pay_out r2 payee in
        let shared = recipient_outputs decode fl r3 recipients in
        let pool : Output = record { amount = pay_out r3 shared; script = pool_recipient } in
        omega (
          arith,
          total-witness_output,
          total-append (witness_output decode fl t) (pool ∷ []),
          total-append sb (payee ++ shared),
          total-append payee shared,
          pay_out-total t.coinbase_value ms,
          pay_out-total r1 sb,
          pay_out-total r2 payee,
          pay_out-total r3 shared,
        )

    -- Where a template has outputs, and the value of its coinbase is a uint64, the amounts of the outputs, with
    -- the masternodes', the superblocks', the payee's and the recipients', add up to that value modulo 2^64.
    pub outputs_of-total :
        (outs : Outputs)
        → outputs_of decode fl pool_recipient recipients t ≡ some outs
        → t.coinbase_value < 2 ^ 64
        → (total outs.front + total outs.masternodes + total outs.back) % 2 ^ 64 ≡ t.coinbase_value
    unfolding outputs_of
    outputs_of-total outs e h =
        let (ms, em, e1) = >>=-eq-some (payee_outputs decode t.masternode) _ e in
        let (sb, es, e2) = >>=-eq-some (payee_outputs decode t.superblock) _ e1 in
        let (payee, ep, e3) =
          >>=-eq-some (single_payee decode fl t (pay_out (pay_out t.coinbase_value ms) sb)) _ e2 in
        let same : arrange decode fl pool_recipient recipients t ms sb payee ≡ outs = cc e3 in
        subst
          (λ (o : Outputs).
            (total o.front + total o.masternodes + total o.back) % 2 ^ 64 ≡ t.coinbase_value)
          same (total-arrange ms sb payee ∙ mod-eq_of_lt h)

    -- Where the template pays no masternode and amounts and scripts have their widths, the bytes of
    -- GenerateOutputTransactions are a vector of outputs as Bitcoin writes them: a reader of that format
    -- gets just the outputs back, in their order.
    pub generate_output_transactions_lem :
        (outs : Outputs)
        → outputs_of decode fl pool_recipient recipients t ≡ some outs
        → outs.masternodes ≡ []
        → All IsOutput (outs.front ++ outs.back)
        → length (outs.front ++ outs.back) < 2 ^ 64
        → (bytes : Bytes) × (generate_output_transactions decode fl pool_recipient recipients t
            ≡ some bytes)
          × (read_output_vector bytes ≡ some (outs.front ++ outs.back))
    unfolding generate_output_transactions
    generate_output_transactions_lem outs e none_paid h k =
        (outputs_bytes outs, >>=-some _ e refl, read_output_vector-outputs_bytes outs none_paid h k)
