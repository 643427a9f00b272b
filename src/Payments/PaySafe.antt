-- ===== src/Payments/PaySafe.antt =====
-- payments/payer.go: the payout behind reconcile, and the books.
use not_only_mining_pool.Common.{◌≡◌, refl, subst, ◌∙◌, sym, inl, inr, List, [], ◌∷◌, Bytes, none}
use not_only_mining_pool.Common.Dict.{Dict, lookup}
use not_only_mining_pool.Common.Float.{Float64}
use not_only_mining_pool.Storage.Types.{PaymentUpdate, PendingBlock}
use not_only_mining_pool.Payments.Prog.{Result, ok, err, Prog, done}
use not_only_mining_pool.Payments.Split.{PayMode, prop, pplns, solo, pps, PaymentManager}
use not_only_mining_pool.Payments.Settle.{Worker, Cache, settle}
use not_only_mining_pool.Payments.Run.{
  workers_of, tries, apply_then, got, settle_and_apply, pay_matured, process_blocks, process_pps,
  process_mode, sort_blocks, sort_blocks_pps, seed_workers, credit_shares, new_update, confirm_all,
}
use not_only_mining_pool.Payments.World.{World, Safe, Safe-bind, Quiet-bind, Writes, DistinctReply}
use not_only_mining_pool.Payments.Ledger.{recorded, Balanced, Owes, Books, Unsent, Unsent-Books}
use not_only_mining_pool.Payments.SettleSafe.{Settled, settle-Safe}
use not_only_mining_pool.Payments.Keyed.{
  Keyed, Keyed-Apart, credit_shares-Keyed, seed_workers-Keyed,
}
use not_only_mining_pool.Payments.Quiet.{
  Reading-Quiet, Sorted, sort_blocks-Reading, sort_blocks_pps-Reading, confirm_all-paid,
}

-- No promise about what a program returns.
abbrev pub Whatever : {fl : Float64} {A : Type 0} → A → World fl → Type 0
Whatever _ _ = Unit {0}

module _ {fl : Float64} (pm : PaymentManager fl) where
  open fl use {F}

  -- After a successful ApplyPayments of an update that the books owe, they are balanced.
  pub applied_books :
      (u : PaymentUpdate fl) (w : World fl)
      → Owes u w
      → Balanced (record w { intent = none; applied = u ∷ w.applied })
  unfolding recorded
  applied_books u w o = o

  apply_then-Safe :
      {A : Type 0} (u : PaymentUpdate fl) (out : A) (w : World fl)
      → Books w
      → Owes u w
      → Safe Books Whatever (apply_then pm u out) w
  unfolding apply_then got
  apply_then-Safe {A} u out w b o = (b, reply)
    where
      after : World fl
      after = record w { intent = none; applied = u ∷ w.applied }

      reply :
          (r : Result (Unit {0})) (v : World fl)
          → Writes w r v after
          → Safe Books Whatever (got pm (λ _. done out) r) v
      reply (ok tt) v st = (subst Books (sym st) (applied_books u w o), tt)
      reply (err e) v (inl st) = subst Books (sym st) b
      reply (err e) v (inr st) = subst Books (sym st) (applied_books u w o)

  settle_and_apply-Safe :
      (workers : Dict Worker) (u : PaymentUpdate fl) (cache : Cache) (w : World fl)
      → Keyed workers
      → u.paid ≡ []
      → Unsent w.intent
      → Balanced w
      → Safe Books Whatever (settle_and_apply pm workers u cache) w
  unfolding settle_and_apply lookup
  settle_and_apply-Safe workers u cache w k e s b =
      Safe-bind Books (Settled pm) Whatever
        (settle pm tries (workers_of workers) u (fl.of_nat 0) cache) _ w
        (settle-Safe pm tries (workers_of workers) u (fl.of_nat 0) cache w (Keyed-Apart workers k)
          (λ a _. rw e) s b)
        λ out v books o. apply_then-Safe out.0 out.1 v books o

  -- A read of redis leaves the world alone, and ends the run if it answers an error.
  got-Safe :
      {A B : Type 0} (next : A → Prog fl B) (w v : World fl) (r : Result A)
      → v ≡ w
      → Books w
      → ((a : A) → r ≡ ok a → Safe Books Whatever (next a) w)
      → Safe Books Whatever (got pm next r) v
  unfolding got
  got-Safe next w v (err e) same b h = subst Books (sym same) b
  got-Safe next w v (ok a) same b h =
      subst (λ u. Safe Books Whatever (next a) u) (sym same) (h a refl)

  pay_matured-Safe :
      (matured : List PendingBlock) (orphaned : List Bytes) (workers : Dict Worker)
      (u : PaymentUpdate fl) (cache : Cache) (w : World fl)
      → Keyed workers
      → u.paid ≡ []
      → Unsent w.intent
      → Balanced w
      → Safe Books Whatever (pay_matured pm matured orphaned workers u cache) w
  unfolding pay_matured lookup
  pay_matured-Safe [] [] workers u cache w k e s b = (Unsent-Books w s b, tt)
  pay_matured-Safe [] (o ∷ orphaned) workers u cache w k e s b =
      apply_then-Safe u cache w (Unsent-Books w s b) (λ a. rw e (b a))
  pay_matured-Safe (pb ∷ matured) orphaned workers u cache w k e s b =
      settle_and_apply-Safe workers (confirm_all pm (pb ∷ matured) u) cache w k
        (confirm_all-paid pm (pb ∷ matured) u ∙ e) s b

  process_blocks-Safe :
      (pending : List PendingBlock) (cache : Cache) (w : World fl)
      → Unsent w.intent
      → Balanced w
      → Safe Books Whatever (process_blocks pm pending cache) w
  unfolding process_blocks
  process_blocks-Safe [] cache w s b = (Unsent-Books w s b, tt)
  process_blocks-Safe (pb ∷ pending) cache w s b = (
    Unsent-Books w s b,
    λ r v st. got-Safe _ w v r st.0 (Unsent-Books w s b) λ balances read.
        Quiet-bind Books w (Sorted pm) Whatever
          (sort_blocks pm (pb ∷ pending) (seed_workers pm balances) (new_update pm 0) []) _
          (Reading-Quiet Books w (Sorted pm)
            (sort_blocks pm (pb ∷ pending) (seed_workers pm balances) (new_update pm 0) [])
            (Unsent-Books w s b)
            (sort_blocks-Reading pm (pb ∷ pending) (seed_workers pm balances) (new_update pm 0) []
              (seed_workers-Keyed pm balances (subst DistinctReply read st.1)) refl))
          λ out sorted.
            pay_matured-Safe out.2 out.1.orphaned out.0 out.1 cache w sorted.0 sorted.1 s b,
  )

  process_pps-Safe :
      (cache : Cache) (w : World fl)
      → Unsent w.intent
      → Balanced w
      → Safe Books Whatever (process_pps pm cache) w
  unfolding process_pps
  process_pps-Safe cache w s b = (
    books,
    λ r v st. got-Safe _ w v r st books λ cursor _. (
      books,
      λ r v st. got-Safe _ w v r st books λ (new_shares, max_seq) _. (
        books,
        λ r v st. got-Safe _ w v r st.0 books λ balances read. (
          books,
          λ r v st'. got-Safe _ w v r st' books λ pending _.
              Quiet-bind Books w (λ u. u.paid ≡ []) Whatever
                (sort_blocks_pps pm pending (new_update pm max_seq)) _
                (Reading-Quiet Books w (λ u. u.paid ≡ [])
                  (sort_blocks_pps pm pending (new_update pm max_seq)) books
                  (sort_blocks_pps-Reading pm pending (new_update pm max_seq) refl))
                λ u none_paid.
                  settle_and_apply-Safe (credit_shares pm new_shares (seed_workers pm balances)) u
                    cache w
                    (credit_shares-Keyed pm new_shares (seed_workers pm balances)
                      (seed_workers-Keyed pm balances (subst DistinctReply read st.1)))
                    none_paid s b,
        ),
      ),
    ),
  )
    where
      books : Books w
      books = Unsent-Books w s b

  pub process_mode-Safe :
      (mode : PayMode) (cache : Cache) (w : World fl)
      → Unsent w.intent
      → Balanced w
      → Safe Books Whatever (process_mode pm mode cache) w
  unfolding process_mode
  process_mode-Safe pps cache w s b = process_pps-Safe cache w s b
  process_mode-Safe prop cache w s b = (
    Unsent-Books w s b,
    λ r v st.
        got-Safe _ w v r st (Unsent-Books w s b)
          λ pending _. process_blocks-Safe pending cache w s b,
  )
  process_mode-Safe pplns cache w s b = (
    Unsent-Books w s b,
    λ r v st.
        got-Safe _ w v r st (Unsent-Books w s b)
          λ pending _. process_blocks-Safe pending cache w s b,
  )
  process_mode-Safe solo cache w s b = (
    Unsent-Books w s b,
    λ r v st.
        got-Safe _ w v r st (Unsent-Books w s b)
          λ pending _. process_blocks-Safe pending cache w s b,
  )
