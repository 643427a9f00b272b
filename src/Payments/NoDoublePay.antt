-- ===== src/Payments/NoDoublePay.antt =====
-- payments/payer.go: runs of processPayments, one after the other, and the books.
use not_only_mining_pool.Common.{subst, sym, inl, inr, [], ◌∷◌, Bytes, Option, none, some}
use not_only_mining_pool.Common.Float.{Float64}
use not_only_mining_pool.Storage.Types.{PaymentUpdate}
use not_only_mining_pool.Payments.Prog.{Result, ok, err, of_result}
use not_only_mining_pool.Payments.Split.{PaymentManager}
use not_only_mining_pool.Payments.Settle.{Cache}
use not_only_mining_pool.Payments.Run.{on_intent, reconcile, process_mode, process_payments}
use not_only_mining_pool.Payments.World.{
  World, Safe, Safe-bind, Runs, Runs-safe, Outcome, Writes, Reads,
}
use not_only_mining_pool.Payments.Ledger.{Balanced, Owes, BooksWith, Books, Unsent}
use not_only_mining_pool.Payments.PaySafe.{Whatever, applied_books, process_mode-Safe}

module _ {fl : Float64} (pm : PaymentManager fl) where
  -- What reconcile leaves: no intent that may have been broadcast, and balanced books.
  abbrev Resolved : Unit {0} → World fl → Type 0
  Resolved _ w = Unsent w.intent × Balanced w

  resume-Safe :
      (u : PaymentUpdate fl) (w : World fl) (r : Result (Unit {0})) (v : World fl)
      → Books w
      → Owes u w
      → Writes w r v (record w { intent = none; applied = u ∷ w.applied })
      → Safe Books Resolved (of_result r) v
  resume-Safe u w (ok _) v b o st =
      subst (λ x. Books x × (Unsent x.intent × Balanced x)) (sym st)
        (applied_books pm u w o, (tt, applied_books pm u w o))
  resume-Safe u w (err e) v b o (inl st) = subst Books (sym st) b
  resume-Safe u w (err e) v b o (inr st) = subst Books (sym st) (applied_books pm u w o)

  on_intent-Safe :
      (r : Result (Option (PaymentUpdate fl × Bytes))) (w : World fl)
      → Books w
      → Reads r w
      → Safe Books Resolved (on_intent pm r) w
  unfolding on_intent
  on_intent-Safe (err e) w b same = b
  on_intent-Safe (ok none) w b same =
      (b, (subst Unsent same tt, subst (λ i. BooksWith i w) (sym same) b))
  on_intent-Safe (ok (some (u, []))) w b same = b
  on_intent-Safe (ok (some (u, c ∷ txid))) w b same =
      (b, λ r v st. resume-Safe u w r v b (subst (λ i. BooksWith i w) (sym same) b) st)

  reconcile-Safe : (w : World fl) → Books w → Safe Books Resolved (reconcile pm) w
  unfolding reconcile
  reconcile-Safe w b = (
    b,
    λ r v st.
        subst (λ u. Safe Books Resolved (on_intent pm r) u) (sym st.0) (on_intent-Safe r w b st.1),
  )

  process_payments-Safe :
      (cache : Cache) (w : World fl) → Books w → Safe Books Whatever (process_payments pm cache) w
  unfolding process_payments
  process_payments-Safe cache w b =
      Safe-bind Books Resolved Whatever (reconcile pm) (λ _. process_mode pm pm.pay_mode cache) w
        (reconcile-Safe w b)
        λ _ v _ resolved. process_mode-Safe pm pm.pay_mode cache v resolved.0 resolved.1

  -- The runs of a payer, one after the other, each with any memory of checked addresses; any of them
  -- may be cut off at any of its calls.
  pub data Lifetime (w : World fl) : World fl → Type 0 where
    started : Lifetime w w
    ran :
        {v u : World fl} {o : Outcome Cache} (cache : Cache)
        → Lifetime w v
        → Runs (process_payments pm cache) v o u
        → Lifetime w u

  -- From a world whose books are in order, any sequence of runs of processPayments, each cut off anywhere
  -- or not, ends in one whose books are: without a payout intent, what the wallet has sent to each address
  -- is what redis has recorded as paid to it, payment by payment; with an intent that has its transaction id,
  -- the records lack just the intent's update; with one that has none, they are balanced or lack it.
  pub Lifetime-Books : {w u : World fl} → Books w → Lifetime w u → Books u
  Lifetime-Books b started = b
  Lifetime-Books b (ran {v = v} cache before run) =
      Runs-safe Books Whatever run (process_payments-Safe cache v (Lifetime-Books b before))
