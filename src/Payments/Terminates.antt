-- ===== src/Payments/Terminates.antt =====
-- payments/payer.go: payout runs, and the tries of settle.
use not_only_mining_pool.Common.{
  Signed, ℕ, ◌≡◌, ◌≢◌, true, Bytes, List, [], ◌∷◌, ◌++◌, Option, none, some, ◌||◌, if◌then◌else◌,
  text_eq, arith,
}
use not_only_mining_pool.Common.Dict.{Dict}
use not_only_mining_pool.Common.Float.{Float64}
use not_only_mining_pool.Storage.Types.{PaymentUpdate, PendingBlock}
use not_only_mining_pool.Payments.Prog.{
  out_of_fuel, Result, ok, err, Rpc, no_result, rpc_error, malformed, result, Prog, done, of_result,
  Transaction,
}
use not_only_mining_pool.Payments.Split.{
  PaymentManager, PayMode, prop, pplns, solo, pps, coin_to_sat,
}
use not_only_mining_pool.Payments.Classify.{
  Verdict, orphan, kicked, is_code, is_negative, on_block, on_transaction, classify_block,
  classify_missing_tx,
}
use not_only_mining_pool.Payments.Settle.{Worker, Cache, settle}
use not_only_mining_pool.Payments.Run.{
  is_young, credit_all, on_shares, attribute_round, attribute_solo, attribute_mode, attribute,
  on_verdict, on_dist, sort_blocks, sort_blocks_pps, add_orphan, add_confirmed, confirm_all,
  on_intent, reconcile, got, apply_then, settle_and_apply, pay_matured, process_blocks, process_pps,
  process_mode, process_payments, seed_workers, credit_shares, new_update, workers_of, tries,
}
use not_only_mining_pool.Payments.World.{
  World, Runs, returns, fails, crashes, calls, Outcome, failed,
}
use not_only_mining_pool.Payments.Tries.{
  Fuelled, Fuelled-bind, if_Fuelled, withheld_after, settle-Fuelled,
}

module _ {fl : Float64} (pm : PaymentManager fl) where
  open fl use {F, of_nat, le}

  on_block-Fuelled : (r : Rpc Signed) → Fuelled (on_block fl r)
  unfolding on_block
  on_block-Fuelled no_result = tt
  on_block-Fuelled (rpc_error c) = tt
  on_block-Fuelled malformed = tt
  on_block-Fuelled (result c) = if_Fuelled (is_negative c) _ (done none) (λ _. tt) (λ _. tt)

  on_transaction-Fuelled :
      (pb : PendingBlock) (r : Rpc (Transaction fl)) → Fuelled (on_transaction fl pm pb r)
  unfolding on_transaction classify_missing_tx
  on_transaction-Fuelled pb no_result = tt
  on_transaction-Fuelled pb (rpc_error c) =
      if_Fuelled (is_code 4 c) (classify_missing_tx fl pb) (done none) (λ _. on_block-Fuelled)
        (λ _. tt)
  on_transaction-Fuelled pb malformed = tt
  on_transaction-Fuelled pb (result gt) = tt

  classify_block-Fuelled : (pb : PendingBlock) → Fuelled (classify_block fl pm pb)
  unfolding classify_block
  classify_block-Fuelled pb = on_transaction-Fuelled pb

  on_shares-Fuelled : (sat : ℕ) (r : Result (Dict F)) → Fuelled (on_shares pm sat r)
  unfolding on_shares
  on_shares-Fuelled sat (err e) = λ same. cc
  on_shares-Fuelled sat (ok m) = tt

  attribute_solo-Fuelled : (finder : Bytes) (sat : ℕ) → Fuelled (attribute_solo pm finder sat)
  unfolding attribute_solo
  attribute_solo-Fuelled [] sat = tt
  attribute_solo-Fuelled (b ∷ finder) sat = tt

  attribute_mode-Fuelled :
      (mode : PayMode) (pb : PendingBlock) (sat : ℕ) → Fuelled (attribute_mode pm mode pb sat)
  unfolding attribute_mode attribute_round
  attribute_mode-Fuelled solo pb sat = attribute_solo-Fuelled pb.finder sat
  attribute_mode-Fuelled pplns pb sat =
      if_Fuelled (le pm.pplns_window (of_nat 0)) (attribute_round pm pb sat) _
        (λ _. on_shares-Fuelled sat) (λ _. on_shares-Fuelled sat)
  attribute_mode-Fuelled prop pb sat = on_shares-Fuelled sat
  attribute_mode-Fuelled pps pb sat = on_shares-Fuelled sat

  on_verdict-Fuelled :
      {A : Type 0} (p q : Prog fl A) (f : Verdict fl → Prog fl A)
      → Fuelled p
      → Fuelled q
      → ((v : Verdict fl) → Fuelled (f v))
      → (o : Option (Verdict fl)) → Fuelled (on_verdict pm p q f o)
  unfolding on_verdict
  on_verdict-Fuelled p q f hp hq hf none = hp
  on_verdict-Fuelled p q f hp hq hf (some v) =
      if_Fuelled (text_eq v.category orphan || text_eq v.category kicked) q
        (if is_young v.confirmations pm.min_confirmations then p else f v) (λ _. hq)
        (λ _.
          if_Fuelled (is_young v.confirmations pm.min_confirmations) p (f v) (λ _. hp) (λ _. hf v))

  on_dist-Fuelled :
      {A : Type 0} (p : Prog fl A) (f : Dict ℕ → Prog fl A)
      → Fuelled p
      → ((dist : Dict ℕ) → Fuelled (f dist))
      → (dist : Dict ℕ) → Fuelled (on_dist pm p f dist)
  unfolding on_dist
  on_dist-Fuelled p f hp hf [] = hp
  on_dist-Fuelled p f hp hf (d ∷ dist) = hf (d ∷ dist)

  got-Fuelled :
      {A B : Type 0} (next : A → Prog fl B)
      → ((a : A) → Fuelled (next a))
      → (r : Result A) → Fuelled (got pm next r)
  unfolding got
  got-Fuelled next h (err e) = λ same. cc
  got-Fuelled next h (ok a) = h a

  sort_blocks-Fuelled :
      (pbs : List PendingBlock) (workers : Dict Worker) (u : PaymentUpdate fl)
      (matured : List PendingBlock)
      → Fuelled (sort_blocks pm pbs workers u matured)
  unfolding sort_blocks attribute
  sort_blocks-Fuelled [] workers u matured = tt
  sort_blocks-Fuelled (pb ∷ pbs) workers u matured =
      Fuelled-bind (classify_block fl pm pb) _ (classify_block-Fuelled pb) (
        on_verdict-Fuelled _ _ _ (sort_blocks-Fuelled pbs workers u matured)
          (sort_blocks-Fuelled pbs workers (add_orphan pm pb u) matured)
          λ v.
            Fuelled-bind (attribute_mode pm pm.pay_mode pb (coin_to_sat fl pm v.reward)) _
              (attribute_mode-Fuelled pm.pay_mode pb (coin_to_sat fl pm v.reward))
              (on_dist-Fuelled _ _ (sort_blocks-Fuelled pbs workers (add_orphan pm pb u) matured)
                λ d. sort_blocks-Fuelled pbs (credit_all d workers) u (matured ++ (pb ∷ []))))

  sort_blocks_pps-Fuelled :
      (pbs : List PendingBlock) (u : PaymentUpdate fl) → Fuelled (sort_blocks_pps pm pbs u)
  unfolding sort_blocks_pps
  sort_blocks_pps-Fuelled [] u = tt
  sort_blocks_pps-Fuelled (pb ∷ pbs) u =
      Fuelled-bind (classify_block fl pm pb) _ (classify_block-Fuelled pb) (
        on_verdict-Fuelled _ _ _ (sort_blocks_pps-Fuelled pbs u)
          (sort_blocks_pps-Fuelled pbs (add_orphan pm pb u))
          λ v. sort_blocks_pps-Fuelled pbs (add_confirmed pm pb u))

  of_result-Fuelled : (r : Result (Unit {0})) → Fuelled {fl = fl} (of_result r)
  of_result-Fuelled (ok _) = tt
  of_result-Fuelled (err e) = λ same. cc

  on_intent-Fuelled : (r : Result (Option (PaymentUpdate fl × Bytes))) → Fuelled (on_intent pm r)
  unfolding on_intent
  on_intent-Fuelled (err e) = λ same. cc
  on_intent-Fuelled (ok none) = tt
  on_intent-Fuelled (ok (some (u, []))) = λ same. cc
  on_intent-Fuelled (ok (some (u, b ∷ txid))) = of_result-Fuelled

  -- The float64s that double the withheld part reach one within eight steps from 0.01: 1.28.
  module _ (doubling : le (of_nat 1) (withheld_after pm 8 (of_nat 0)) ≡ true) where
    settle_and_apply-Fuelled :
        (workers : Dict Worker) (u : PaymentUpdate fl) (cache : Cache)
        → Fuelled (settle_and_apply pm workers u cache)
    unfolding settle_and_apply apply_then
    settle_and_apply-Fuelled workers u cache =
        Fuelled-bind (settle pm tries (workers_of workers) u (of_nat 0) cache) _
          (settle-Fuelled pm 8 tries (workers_of workers) u (of_nat 0) cache (omega arith)
            (omega arith) doubling)
          λ out. got-Fuelled _ (λ _. tt)

    pay_matured-Fuelled :
        (matured : List PendingBlock) (orphaned : List Bytes) (workers : Dict Worker)
        (u : PaymentUpdate fl) (cache : Cache)
        → Fuelled (pay_matured pm matured orphaned workers u cache)
    unfolding pay_matured apply_then
    pay_matured-Fuelled [] [] workers u cache = tt
    pay_matured-Fuelled [] (o ∷ orphaned) workers u cache = got-Fuelled _ (λ _. tt)
    pay_matured-Fuelled (pb ∷ matured) orphaned workers u cache =
        settle_and_apply-Fuelled workers (confirm_all pm (pb ∷ matured) u) cache

    process_blocks-Fuelled :
        (pending : List PendingBlock) (cache : Cache) → Fuelled (process_blocks pm pending cache)
    unfolding process_blocks
    process_blocks-Fuelled [] cache = tt
    process_blocks-Fuelled (pb ∷ pending) cache = got-Fuelled _ λ balances.
        Fuelled-bind (sort_blocks pm (pb ∷ pending) (seed_workers pm balances) (new_update pm 0) [])
          _ (sort_blocks-Fuelled (pb ∷ pending) (seed_workers pm balances) (new_update pm 0) [])
          λ out. pay_matured-Fuelled out.2 out.1.orphaned out.0 out.1 cache

    process_mode-Fuelled : (mode : PayMode) (cache : Cache) → Fuelled (process_mode pm mode cache)
    unfolding process_mode process_pps
    process_mode-Fuelled pps cache = got-Fuelled _ λ cursor. got-Fuelled _ λ new.
        got-Fuelled _ λ balances. got-Fuelled _ λ pending.
          Fuelled-bind (sort_blocks_pps pm pending (new_update pm new.1)) _
            (sort_blocks_pps-Fuelled pending (new_update pm new.1))
            λ u.
              settle_and_apply-Fuelled (credit_shares pm new.0 (seed_workers pm balances)) u cache
    process_mode-Fuelled prop cache = got-Fuelled _ λ pending. process_blocks-Fuelled pending cache
    process_mode-Fuelled pplns cache = got-Fuelled _ λ pending. process_blocks-Fuelled pending cache
    process_mode-Fuelled solo cache = got-Fuelled _ λ pending. process_blocks-Fuelled pending cache

    process_payments-Fuelled : (cache : Cache) → Fuelled (process_payments pm cache)
    unfolding process_payments reconcile
    process_payments-Fuelled cache =
        Fuelled-bind (reconcile pm) _ on_intent-Fuelled λ _. process_mode-Fuelled pm.pay_mode cache

    Fuelled-failed :
        {A : Type 0} {p : Prog fl A} {w v : World fl} {o : Outcome A}
        → Runs p w o v
        → Fuelled p
        → o ≢ failed out_of_fuel
    Fuelled-failed returns h = λ e. cc
    Fuelled-failed (fails {e = e}) h = λ same. h (cc)
    Fuelled-failed crashes h = λ e. cc
    Fuelled-failed (calls r st rest) h = Fuelled-failed rest (h r)

    -- The nine tries that the model of settle has are enough: if doubling the withheld part from 0.01
    -- reaches one within eight steps, as 0.01 · 2⁷ does, no run of processPayments ends for want of them.
    pub tries_are_enough :
        (cache : Cache) (w v : World fl) (o : Outcome Cache)
        → Runs (process_payments pm cache) w o v
        → o ≢ failed out_of_fuel
    tries_are_enough cache w v o run = Fuelled-failed run (process_payments-Fuelled cache)
