-- ===== src/Payments/Run.antt =====
-- payments/payer.go: reconcile, the attribution of a block and the two kinds of payout runs.
use not_only_mining_pool.Common.{
  Signed, plus, minus, ℕ, List, [], ◌∷◌, ◌++◌, Bytes, Bool, true, Option, none, some, ◌||◌,
  if◌then◌else◌, ltb, text_eq, map,
}
use not_only_mining_pool.Common.Dict.{Dict, lookup, insert}
use not_only_mining_pool.Common.Float.{Float64}
use not_only_mining_pool.Storage.Types.{PendingBlock, PaymentUpdate}
use not_only_mining_pool.Storage.Block.{block_text}
use not_only_mining_pool.Payments.Prog.{
  redis, in_flight, Result, ok, err, get_payout_intent, apply_payments, get_all_miner_balances,
  get_all_pending_blocks, get_round_contrib, get_pplns_shares, get_pps_cursor, get_shares_since,
  Prog, done, fail, call, ◌>>=◌, ◌>>◌, of_result,
}
use not_only_mining_pool.Payments.Split.{
  PayMode, prop, pplns, solo, pps, PaymentManager, add64, split_by_shares, coin_to_sat,
}
use not_only_mining_pool.Payments.Classify.{Verdict, orphan, kicked, classify_block}
use not_only_mining_pool.Payments.Settle.{Worker, Cache, settle}

-- `confirmations < pm.options.MinConfirmations`
abbrev pub is_young : Signed → ℕ → Bool
is_young (plus n) least = ltb n least
is_young (minus n) least = true

-- `w := workers[miner]`, made if missing, and `w.Reward += r`
unfoldable pub credit : Bytes → ℕ → Dict Worker → Dict Worker
credit miner r workers = elim (lookup miner workers) [
  | some w ↦ insert miner (record w { reward = add64 w.reward r }) workers
  | none ↦
      insert miner (record { address = miner; balance = 0; reward = add64 0 r; sent = 0 }) workers
]

unfoldable pub credit_all : Dict ℕ → Dict Worker → Dict Worker
unfolding credit
credit_all [] workers = workers
credit_all ((miner, r) ∷ dist) workers = credit_all dist (credit miner r workers)

abbrev pub workers_of : Dict Worker → List Worker
workers_of = map λ e. e.1

-- Tries of settle: nothing withheld, then 1, 2, 4, ... 64 percent.
abbrev pub tries : ℕ
tries = 9

module _ {fl : Float64} (pm : PaymentManager fl) where
  open fl use {F, of_nat, mul, le}

  unfoldable pub on_intent : Result (Option (PaymentUpdate fl × Bytes)) → Prog fl (Unit {0})
  on_intent (err e) = fail (redis e)
  on_intent (ok none) = done tt
  on_intent (ok (some (update, []))) = fail in_flight
  on_intent (ok (some (update, b ∷ txid))) = call (apply_payments update) of_result

  -- reconcile
  unfoldable pub reconcile : Prog fl (Unit {0})
  unfolding on_intent
  reconcile = call get_payout_intent on_intent

  -- The seeds of the workers: the balances carried over.
  unfoldable pub seed_workers : Dict F → Dict Worker
  seed_workers [] = []
  seed_workers ((miner, bal) ∷ m) =
      (miner, record { address = miner; balance = coin_to_sat fl pm bal; reward = 0; sent = 0 })
      ∷ seed_workers m

  unfoldable pub on_shares : ℕ → Result (Dict F) → Prog fl (Dict ℕ)
  on_shares reward_sat (err e) = fail (redis e)
  on_shares reward_sat (ok shares) = done (split_by_shares fl reward_sat shares)

  unfoldable pub attribute_round : PendingBlock → ℕ → Prog fl (Dict ℕ)
  unfolding on_shares
  attribute_round pb reward_sat = call (get_round_contrib pb.height) (on_shares reward_sat)

  unfoldable pub attribute_solo : Bytes → ℕ → Prog fl (Dict ℕ)
  attribute_solo [] reward_sat = done []
  attribute_solo (b ∷ finder) reward_sat = done ((b ∷ finder, reward_sat) ∷ [])

  unfoldable pub attribute_mode : PayMode → PendingBlock → ℕ → Prog fl (Dict ℕ)
  unfolding attribute_round attribute_solo on_shares
  attribute_mode solo pb reward_sat = attribute_solo pb.finder reward_sat
  attribute_mode pplns pb reward_sat =
      if le pm.pplns_window (of_nat 0)
      then attribute_round pb reward_sat
      else call (get_pplns_shares pb.mark pm.pplns_window) (on_shares reward_sat)
  attribute_mode prop pb reward_sat = attribute_round pb reward_sat
  attribute_mode pps pb reward_sat = attribute_round pb reward_sat

  -- attribute
  unfoldable pub attribute : PendingBlock → ℕ → Prog fl (Dict ℕ)
  unfolding attribute_mode
  attribute pb reward_sat = attribute_mode pm.pay_mode pb reward_sat

  abbrev pub add_orphan : PendingBlock → PaymentUpdate fl → PaymentUpdate fl
  add_orphan pb u = record u {
    orphaned = u.orphaned ++ (block_text pb ∷ []);
    delete_rounds = u.delete_rounds ++ (pb.height ∷ []);
  }

  abbrev pub add_confirmed : PendingBlock → PaymentUpdate fl → PaymentUpdate fl
  add_confirmed pb u = record u {
    confirmed = u.confirmed ++ (block_text pb ∷ []);
    delete_rounds = u.delete_rounds ++ (pb.height ∷ []);
  }

  unfoldable pub confirm_all : List PendingBlock → PaymentUpdate fl → PaymentUpdate fl
  confirm_all [] u = u
  confirm_all (pb ∷ matured) u = confirm_all matured (add_confirmed pb u)

  -- The switch on a block's verdict: what is done with a block that stays pending, that is orphaned
  -- and that is mature.
  unfoldable pub on_verdict :
      {A : Type 0}
      → Prog fl A
      → Prog fl A
      → (Verdict fl → Prog fl A)
      → Option (Verdict fl)
      → Prog fl A
  on_verdict pending orphaned mature none = pending
  on_verdict pending orphaned mature (some v) =
      let paid = mature v in
      if text_eq v.category orphan || text_eq v.category kicked
      then orphaned
      else if is_young v.confirmations pm.min_confirmations
      then pending
      else paid

  -- A block that pays nobody is orphaned.
  unfoldable pub on_dist : {A : Type 0} → Prog fl A → (Dict ℕ → Prog fl A) → Dict ℕ → Prog fl A
  on_dist orphaned distribute [] = orphaned
  on_dist orphaned distribute (d ∷ dist) = distribute (d ∷ dist)

  -- The loop of processPayments over the pending blocks: the workers with their rewards, the update
  -- with its orphans, and the blocks that are to be confirmed.
  unfoldable pub sort_blocks :
      List PendingBlock
      → Dict Worker
      → PaymentUpdate fl
      → List PendingBlock
      → Prog fl (Dict Worker × PaymentUpdate fl × List PendingBlock)
  unfolding classify_block attribute credit_all on_verdict on_dist
  sort_blocks [] workers u matured = done (workers, u, matured)
  sort_blocks (pb ∷ pbs) workers u matured =
      classify_block fl pm pb
      >>= on_verdict (sort_blocks pbs workers u matured)
          (sort_blocks pbs workers (add_orphan pb u) matured)
          λ v.
            attribute pb (coin_to_sat fl pm v.reward)
            >>= on_dist (sort_blocks pbs workers (add_orphan pb u) matured)
                λ dist. sort_blocks pbs (credit_all dist workers) u (matured ++ (pb ∷ []))

  abbrev pub new_update : ℕ → PaymentUpdate fl
  new_update cursor = record {
    balances = [];
    paid = [];
    confirmed = [];
    orphaned = [];
    delete_rounds = [];
    pps_cursor = cursor;
  }

  -- `if err != nil { return err }` behind a read of redis
  unfoldable pub got : {A B : Type 0} → (A → Prog fl B) → Result A → Prog fl B
  got next (err e) = fail (redis e)
  got next (ok a) = next a

  -- ApplyPayments, and what the run returns after it.
  unfoldable pub apply_then : {A : Type 0} → PaymentUpdate fl → A → Prog fl A
  unfolding got
  apply_then u out = call (apply_payments u) (got λ _. done out)

  -- settle, and then ApplyPayments on the update that it filled.
  unfoldable pub settle_and_apply : Dict Worker → PaymentUpdate fl → Cache → Prog fl Cache
  unfolding settle apply_then
  settle_and_apply workers u cache =
      settle pm tries (workers_of workers) u (of_nat 0) cache >>= λ (u', cache').
      apply_then u' cache'

  -- The loop of processPPS over the pending blocks.
  unfoldable pub sort_blocks_pps : List PendingBlock → PaymentUpdate fl → Prog fl (PaymentUpdate fl)
  unfolding classify_block on_verdict
  sort_blocks_pps [] u = done u
  sort_blocks_pps (pb ∷ pbs) u =
      classify_block fl pm pb
      >>= on_verdict (sort_blocks_pps pbs u) (sort_blocks_pps pbs (add_orphan pb u))
          λ v. sort_blocks_pps pbs (add_confirmed pb u)

  unfoldable pub credit_shares : Dict F → Dict Worker → Dict Worker
  unfolding credit
  credit_shares [] workers = workers
  credit_shares ((miner, diff) ∷ m) workers =
      credit_shares m (credit miner (coin_to_sat fl pm (mul diff pm.pps_rate)) workers)

  -- processPPS
  unfoldable pub process_pps : Cache → Prog fl Cache
  unfolding seed_workers credit_shares sort_blocks_pps settle_and_apply got
  process_pps cache = call get_pps_cursor (
      got λ cursor. call (get_shares_since cursor) (
        got λ (new_shares, max_seq). call get_all_miner_balances (
          got λ balances. call get_all_pending_blocks (
            got λ pending. sort_blocks_pps pending (new_update max_seq) >>= λ u.
            settle_and_apply (credit_shares new_shares (seed_workers balances)) u cache))))

  -- What processPayments does with the sorted blocks: no block matured, and else the payout.
  unfoldable pub pay_matured :
      List PendingBlock → List Bytes → Dict Worker → PaymentUpdate fl → Cache → Prog fl Cache
  unfolding confirm_all settle_and_apply apply_then
  pay_matured [] [] workers u cache = done cache
  pay_matured [] (o ∷ orphaned) workers u cache = apply_then u cache
  pay_matured (pb ∷ matured) orphaned workers u cache =
      settle_and_apply workers (confirm_all (pb ∷ matured) u) cache

  -- The rest of processPayments behind the reading of the pending blocks.
  unfoldable pub process_blocks : List PendingBlock → Cache → Prog fl Cache
  unfolding seed_workers sort_blocks pay_matured got
  process_blocks [] cache = done cache
  process_blocks (pb ∷ pending) cache = call get_all_miner_balances (
      got λ balances.
        sort_blocks (pb ∷ pending) (seed_workers balances) (new_update 0) []
        >>= λ (workers, u, matured). pay_matured matured u.orphaned workers u cache)

  unfoldable pub process_mode : PayMode → Cache → Prog fl Cache
  unfolding process_pps process_blocks got
  process_mode pps cache = process_pps cache
  process_mode prop cache =
      call get_all_pending_blocks (got λ pending. process_blocks pending cache)
  process_mode pplns cache =
      call get_all_pending_blocks (got λ pending. process_blocks pending cache)
  process_mode solo cache =
      call get_all_pending_blocks (got λ pending. process_blocks pending cache)

  -- processPayments, with the cache that it leaves
  unfoldable pub process_payments : Cache → Prog fl Cache
  unfolding reconcile process_mode
  process_payments cache = reconcile >> process_mode pm.pay_mode cache
