-- ===== src/Payments/SettleSafe.antt =====
-- payments/payer.go: settle, and the books.
use not_only_mining_pool.Common.{
  ℕ, zero, suc, ◌≡◌, refl, subst, ◌∙◌, sym, inl, inr, Bool, true, false, List, [], ◌∷◌, Bytes, none,
  some, if◌then◌else◌,
}
use not_only_mining_pool.Common.Dict.{Dict, lookup}
use not_only_mining_pool.Common.Float.{Float64}
use not_only_mining_pool.Storage.Types.{PaymentUpdate}
use not_only_mining_pool.Payments.Prog.{
  Error, redis, Result, fees, send_failed, ok, err, Rpc, no_result, rpc_error, malformed, result,
  Prog, done, fail, call, send_many,
}
use not_only_mining_pool.Payments.Split.{PaymentManager}
use not_only_mining_pool.Payments.Settle.{
  Worker, Cache, choose_amounts, record_amounts, abandon, stamp, on_reply, pay, settle,
  next_withhold,
}
use not_only_mining_pool.Payments.Classify.{is_code}
use not_only_mining_pool.Payments.World.{World, Safe, Quiet-bind, Writes, Sends, stamped}
use not_only_mining_pool.Payments.Ledger.{
  history, Balanced, Owes, Books, Unsent, Unsent-Books, Owes-Books, Apart, planned, planned-none,
  PaysOnly, paid-planned,
}
use not_only_mining_pool.Payments.Chosen.{Chosen, choose_amounts-Quiet}

module _ {fl : Float64} (pm : PaymentManager fl) where
  open fl use {F}

  -- What settle promises: its update is owed by the books that it leaves.
  abbrev pub Settled : PaymentUpdate fl × Cache → World fl → Type 0
  Settled out w = Owes out.0 w

  abandon-Safe :
      {A : Type 0} (Q : A → World fl → Type 0) (e : Error) (w : World fl)
      → Unsent w.intent
      → Balanced w
      → Safe Books Q (abandon pm e) w
  unfolding abandon
  abandon-Safe Q e w s b = (Unsent-Books w s b, reply)
    where
      reply :
          (r : Result (Unit {0})) (v : World fl)
          → Writes w r v (record w { intent = none })
          → Books v
      reply (ok tt) v st = subst Books (sym st) b
      reply (err e) v (inl st) = subst Books (sym st) (Unsent-Books w s b)
      reply (err e) v (inr st) = subst Books (sym st) b

  stamp-Safe :
      (txid : Bytes) (out : PaymentUpdate fl × Cache) (w : World fl) (old : Bytes)
      → w.intent ≡ some (out.0, old)
      → Owes out.0 w
      → Safe Books Settled (stamp pm txid out) w
  unfolding stamp
  stamp-Safe txid out w old e o = (Owes-Books w out.0 old e o, reply)
    where
      after : World fl
      after = record w { intent = stamped txid w.intent }

      after_books : Books after
      after_books = Owes-Books after out.0 txid (rw e) o

      reply :
          (r : Result (Unit {0})) (v : World fl)
          → Writes w r v after
          → Safe Books Settled (elim r [ err e ↦ fail (redis e) | ok _ ↦ done out ]) v
      reply (ok tt) v st = subst (λ u. Books u × Settled out u) (sym st) (after_books, o)
      reply (err e') v (inl st) = subst Books (sym st) (Owes-Books w out.0 old e o)
      reply (err e') v (inr st) = subst Books (sym st) after_books

  on_reply-Safe :
      (too_much : Bool) (again : Prog fl (PaymentUpdate fl × Cache))
      (out : PaymentUpdate fl × Cache) (amounts : Dict F) (w : World fl)
      → w.intent ≡ some (out.0, [])
      → Balanced w
      → ((a : Bytes) → lookup a amounts ≡ lookup a out.0.paid)
      → Safe Books Settled again w
      → (r : Rpc Bytes) (v : World fl) → Sends w amounts r v
      → Safe Books Settled (on_reply pm too_much again out r) v
  unfolding on_reply history
  on_reply-Safe too_much again out amounts w e b same next = reply
    where
      after : World fl
      after = record w { sent = amounts ∷ w.sent }

      unsent : Unsent w.intent
      unsent = rw e tt

      owes : Owes out.0 after
      owes a = rw (same a, b a)

      reply :
          (r : Rpc Bytes) (v : World fl)
          → Sends w amounts r v
          → Safe Books Settled (on_reply pm too_much again out r) v
      reply no_result v (inl st) = subst Books (sym st) (Unsent-Books w unsent b)
      reply no_result v (inr st) = subst Books (sym st) (Owes-Books after out.0 [] e owes)
      reply (rpc_error c) v st =
          subst (λ u. Safe Books Settled (on_reply pm too_much again out (rpc_error c)) u) (sym st)
            (refused (is_code 5 c) too_much)
        where
          refused :
              (fees_short give_up : Bool)
              → Safe Books Settled
                  (if fees_short
                    then (if give_up then abandon pm fees else again)
                    else abandon pm send_failed)
                  w
          refused true true = abandon-Safe Settled fees w unsent b
          refused true false = next
          refused false give_up = abandon-Safe Settled send_failed w unsent b
      reply malformed v st =
          subst (λ u. Safe Books Settled (stamp pm [] out) u) (sym st)
            (stamp-Safe [] out after [] e owes)
      reply (result txid) v st =
          subst (λ u. Safe Books Settled (stamp pm txid out) u) (sym st)
            (stamp-Safe txid out after [] e owes)

  pay-Safe :
      (too_much : Bool) (again : Prog fl (PaymentUpdate fl × Cache))
      (out : PaymentUpdate fl × Cache) (amounts : Dict F) (w : World fl)
      → Unsent w.intent
      → Balanced w
      → ((a : Bytes) → lookup a amounts ≡ lookup a out.0.paid)
      → ((v : World fl) → Unsent v.intent → Balanced v → Safe Books Settled again v)
      → Safe Books Settled (pay pm too_much again out.0 out amounts) w
  unfolding pay lookup
  pay-Safe too_much again out [] w s b same next =
      (Unsent-Books w s b, λ a. rw (← same a, lookup) (b a))
  pay-Safe too_much again out (x ∷ amounts) w s b same next = (Unsent-Books w s b, reply)
    where
      after : World fl
      after = record w { intent = some (out.0, []) }

      reply :
          (r : Result (Unit {0})) (v : World fl)
          → Writes w r v after
          → Safe Books Settled
              (elim r [
                | err e ↦ fail (redis e)
                | ok _ ↦ call (send_many (x ∷ amounts)) (on_reply pm too_much again out)
              ])
              v
      reply (ok tt) v st =
          subst
            (λ u.
              Safe Books Settled (call (send_many (x ∷ amounts)) (on_reply pm too_much again out))
                u)
            (sym st)
            (
              inl b,
              on_reply-Safe too_much again out (x ∷ amounts) after refl b same (next after tt b),
            )
      reply (err e) v (inl st) = subst Books (sym st) (Unsent-Books w s b)
      reply (err e) v (inr st) = subst Books (sym st) (inl b)

  -- settle from balanced books, with no intent or one that was not broadcast.
  pub settle-Safe :
      (fuel : ℕ) (ws : List Worker) (u : PaymentUpdate fl) (withhold : F) (cache : Cache)
      (w : World fl)
      → Apart ws
      → PaysOnly ws u
      → Unsent w.intent
      → Balanced w
      → Safe Books Settled (settle pm fuel ws u withhold cache) w
  unfolding settle
  settle-Safe zero ws u withhold cache w d only s b = Unsent-Books w s b
  settle-Safe (suc fuel) ws u withhold cache w d only s b =
      Quiet-bind Books w (Chosen pm ws) Settled (choose_amounts pm withhold ws cache) _
        (choose_amounts-Quiet pm Books w books withhold ws cache d)
        (tail λ ws' u' cache' v d' only'.
          settle-Safe fuel ws' u' (next_withhold pm withhold) cache' v d' only')
    where
      books : Books w
      books = Unsent-Books w s b

      tail :
          ((ws' : List Worker) (u' : PaymentUpdate fl) (cache' : Cache) (v : World fl)
            → Apart ws'
            → PaysOnly ws' u'
            → Unsent v.intent
            → Balanced v
            → Safe Books Settled (settle pm fuel ws' u' (next_withhold pm withhold) cache') v)
          → (out : Dict F × List Worker × Cache) → Chosen pm ws out
          → Safe Books Settled
              (pay pm
                (fl.le (fl.of_nat 1) (next_withhold pm withhold))
                (settle pm fuel out.1 (record_amounts pm out.1 u) (next_withhold pm withhold) out.2)
                (record_amounts pm out.1 u)
                (record_amounts pm out.1 u, out.2)
                out.0)
              w
      tail next (amounts, ws', cache') c =
          pay-Safe _ _ (record_amounts pm ws' u, cache') amounts w s b
            (λ a. c.amounts a ∙ sym (paid a))
            λ v sv bv.
              next ws' (record_amounts pm ws' u) cache' v c.apart
                (λ a h. paid a ∙ planned-none pm a ws' h) sv bv
        where
          paid : (a : Bytes) → lookup a (record_amounts pm ws' u).paid ≡ planned pm a ws'
          paid a = paid-planned pm a ws' u c.apart (λ b h. only b (sym (c.same b) ∙ h))
