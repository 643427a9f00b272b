-- ===== src/Payments/Classify.antt =====
-- payments/payer.go: what the wallet says of a pending block.
use not_only_mining_pool.Common.{
  Signed, plus, minus, ℕ, List, [], ◌∷◌, Bytes, Bool, true, false, Option, none, some, codes,
  text_eq, if◌then◌else◌, ◌==◌,
}
use not_only_mining_pool.Common.Float.{Float64}
use not_only_mining_pool.Storage.Types.{PendingBlock}
use not_only_mining_pool.Payments.Prog.{
  Rpc, no_result, rpc_error, malformed, result, TxDetail, Transaction, get_transaction, get_block,
  Prog, done, call,
}
use not_only_mining_pool.Payments.Split.{PaymentManager}

-- storage.Orphan, storage.Kicked and storage.Generate
abbrev pub orphan : Bytes
orphan = codes "orphan"

abbrev pub kicked : Bytes
kicked = codes "kicked"

abbrev pub generate : Bytes
generate = codes "generate"

abbrev pub is_negative : Signed → Bool
is_negative (plus n) = false
is_negative (minus n) = true

-- Whether an error has the code -n.
abbrev pub is_code : ℕ → Signed → Bool
is_code n (plus m) = false
is_code n (minus m) = m == n

module _ (fl : Float64) where
  -- The reward, the category and the confirmations of a block.
  pub record Verdict : Type 0 where
    pub reward : fl.F
    pub category : Bytes
    pub confirmations : Signed

  unfoldable pub orphaned : Verdict
  orphaned = record { reward = fl.of_nat 0; category = orphan; confirmations = plus 0 }

  -- The category and amount of the first detail that credits the pool, or the given ones.
  unfoldable pub find_detail : Bytes → List (TxDetail fl) → Bytes × fl.F → Bytes × fl.F
  find_detail pool [] found = found
  find_detail pool (d ∷ ds) found =
      if text_eq d.address pool then (d.category, d.amount) else find_detail pool ds found

  unfoldable pub on_block : Rpc Signed → Prog fl (Option Verdict)
  unfolding orphaned
  on_block no_result = done none
  on_block (rpc_error c) = done (some orphaned)
  on_block malformed = done none
  on_block (result confirmations) =
      if is_negative confirmations then done (some orphaned) else done none

  -- classifyMissingTx; `none` is `ok == false`.
  unfoldable pub classify_missing_tx : PendingBlock → Prog fl (Option Verdict)
  unfolding on_block
  classify_missing_tx pb = call (get_block pb.hash) on_block

  unfoldable pub verdict_of : PaymentManager fl → Transaction fl → Verdict
  unfolding orphaned find_detail
  verdict_of pm gt =
      if is_negative gt.confirmations
      then orphaned
      else let (category, reward) = find_detail pm.pool_address gt.details (generate, gt.amount) in
        record { reward = reward; category = category; confirmations = gt.confirmations }

  unfoldable pub on_transaction :
      PaymentManager fl → PendingBlock → Rpc (Transaction fl) → Prog fl (Option Verdict)
  unfolding classify_missing_tx verdict_of
  on_transaction pm pb no_result = done none
  -- -5: the wallet does not know the transaction
  on_transaction pm pb (rpc_error c) = if is_code 4 c then classify_missing_tx pb else done none
  on_transaction pm pb malformed = done none
  on_transaction pm pb (result gt) = done (some (verdict_of pm gt))

  -- classifyBlock
  unfoldable pub classify_block : PaymentManager fl → PendingBlock → Prog fl (Option Verdict)
  unfolding on_transaction
  classify_block pm pb = call (get_transaction pb.tx_hash) (on_transaction pm pb)
