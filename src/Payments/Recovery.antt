-- ===== src/Payments/Recovery.antt =====
-- payments/payer.go, reconcile: what a run does about the intent that an earlier run left.
use not_only_mining_pool.Common.{
  ℕ, ◌≡◌, refl, sym, subst, ◌∙◌, ap, ◌≢◌, ◌⊎◌, inl, inr, Bool, Bytes, List, [], ◌∷◌, Option, none,
  some,
}
use not_only_mining_pool.Common.Dict.{Dict}
use not_only_mining_pool.Common.Float.{Float64}
use not_only_mining_pool.Storage.Types.{PaymentUpdate}
use not_only_mining_pool.Payments.Prog.{
  Result, ok, err, of_result, Rpc, no_result, rpc_error, malformed, result, Prog, put_payout_intent,
  send_many,
}
use not_only_mining_pool.Payments.Split.{PaymentManager}
use not_only_mining_pool.Payments.Settle.{Cache, on_reply}
use not_only_mining_pool.Payments.Run.{on_intent, reconcile, process_payments}
use not_only_mining_pool.Payments.World.{
  World, Outcome, returned, Runs, Runs-safe, Runs-returned, Safe, Safe-bind, Reads, Writes, Sends,
  Step,
}

module _ {fl : Float64} (pm : PaymentManager fl) where
  module _ (w : World fl) (u : PaymentUpdate fl) where
    abbrev Same : World fl → Type 0
    Same v = v ≡ w

    abbrev Never : {A : Type 0} → A → World fl → Type 0
    Never _ _ = ⊥

    reconcile_stops : w.intent ≡ some (u, []) → Safe Same Never (reconcile pm) w
    unfolding reconcile on_intent
    reconcile_stops e =
        (refl, λ r v st. subst (λ x. Safe Same Never (on_intent pm r) x) (sym st.0) (stops r st.1))
      where
        stops :
            (r : Result (Option (PaymentUpdate fl × Bytes)))
            → Reads r w
            → Safe Same Never (on_intent pm r) w
        stops (err e') same = refl
        stops (ok none) same = cc
        stops (ok (some (u', []))) same = refl
        stops (ok (some (u', b ∷ t))) same = cc

    process_payments_stops :
        (cache : Cache) → w.intent ≡ some (u, []) → Safe Same Never (process_payments pm cache) w
    unfolding process_payments
    process_payments_stops cache e =
        Safe-bind Same Never Never (reconcile pm) _ w (reconcile_stops e) λ a v s n. absurd n

    found_unstamped :
        (cache : Cache) (v : World fl) (o : Outcome Cache)
        → w.intent ≡ some (u, [])
        → Runs (process_payments pm cache) w o v
        → (v ≡ w) × ((c : Cache) → o ≢ returned c)
    found_unstamped cache v o e run = (
      Runs-safe Same Never run (process_payments_stops cache e),
      λ c same. Runs-returned Same Never c run same (process_payments_stops cache e),
    )

    abbrev Anywhere : World fl → Type 0
    Anywhere v = Unit {0}

    abbrev Applied : Unit {0} → World fl → Type 0
    Applied _ v = v ≡ record w { intent = none; applied = u ∷ w.applied }

    reconcile_applies :
        (b : ℕ) (txid : Bytes)
        → w.intent ≡ some (u, b ∷ txid)
        → Safe Anywhere Applied (reconcile pm) w
    unfolding reconcile on_intent
    reconcile_applies b txid e = (
      tt,
      λ r v st. subst (λ x. Safe Anywhere Applied (on_intent pm r) x) (sym st.0) (found r st.1),
    )
      where
        written :
            (u' : PaymentUpdate fl) (r : Result (Unit {0})) (v : World fl)
            → u' ≡ u
            → Writes w r v (record w { intent = none; applied = u' ∷ w.applied })
            → Safe Anywhere Applied (of_result r) v
        written u' (ok _) v same st =
            (tt, subst (λ x. v ≡ record w { intent = none; applied = x ∷ w.applied }) same st)
        written u' (err _) v same st = tt

        found :
            (r : Result (Option (PaymentUpdate fl × Bytes)))
            → Reads r w
            → Safe Anywhere Applied (on_intent pm r) w
        found (err e') same = tt
        found (ok none) same = cc
        found (ok (some (u', []))) same = cc
        found (ok (some (u', c ∷ t))) same = (tt, λ r v st. written u' r v (cc) st)

    -- An intent that has its transaction id is finished: where reconcile succeeds, its update is
    -- recorded once, the intent is gone, and nothing was sent.
    pub stamped_intent_resumes :
        (b : ℕ) (txid : Bytes) (v : World fl) (a : Unit {0})
        → w.intent ≡ some (u, b ∷ txid)
        → Runs (reconcile pm) w (returned a) v
        → v ≡ record w { intent = none; applied = u ∷ w.applied }
    stamped_intent_resumes b txid v a e run =
        Runs-returned Anywhere Applied a run refl (reconcile_applies b txid e)

  -- A broadcast leaves the intent and what was recorded.
  pub Sends-kept :
      (y z : World fl) (amounts : Dict fl.F) (r : Rpc Bytes)
      → Sends y amounts r z
      → (z.intent ≡ y.intent)
        × (z.applied ≡ y.applied)
        × ((z.sent ≡ y.sent) ⊎ (z.sent ≡ amounts ∷ y.sent))
  Sends-kept y z amounts no_result (inl e) = (
    ap (λ (x : World fl). x.intent) e,
    ap (λ (x : World fl). x.applied) e,
    inl (ap (λ (x : World fl). x.sent) e),
  )
  Sends-kept y z amounts no_result (inr e) = (
    ap (λ (x : World fl). x.intent) e,
    ap (λ (x : World fl). x.applied) e,
    inr (ap (λ (x : World fl). x.sent) e),
  )
  Sends-kept y z amounts (rpc_error c) e = (
    ap (λ (x : World fl). x.intent) e,
    ap (λ (x : World fl). x.applied) e,
    inl (ap (λ (x : World fl). x.sent) e),
  )
  Sends-kept y z amounts malformed e = (
    ap (λ (x : World fl). x.intent) e,
    ap (λ (x : World fl). x.applied) e,
    inr (ap (λ (x : World fl). x.sent) e),
  )
  Sends-kept y z amounts (result txid) e = (
    ap (λ (x : World fl). x.intent) e,
    ap (λ (x : World fl). x.applied) e,
    inr (ap (λ (x : World fl). x.sent) e),
  )

  -- Where the intent was stored and sendmany was called, and then the run was cut off, whatever the reply
  -- would have been, or went on without one, there is still the intent, without a transaction id, and
  -- nothing was recorded, whether or not the wallet has broadcast. Then a later run sends nothing,
  -- changes nothing in redis and does not succeed.
  pub unstamped_intent_halts :
      {A : Type 0} (too_much : Bool) (again : Prog fl A) (out : A) (u : PaymentUpdate fl)
      (amounts : Dict fl.F) (r : Rpc Bytes) (cache : Cache) (x y z w v : World fl)
      (stop : Outcome A) (o : Outcome Cache)
      → Step x (put_payout_intent u) (ok tt) y
      → Step y (send_many amounts) r z
      → (w ≡ z) ⊎ ((r ≡ no_result) × Runs (on_reply pm too_much again out r) z stop w)
      → Runs (process_payments pm cache) w o v
      → (w.intent ≡ some (u, []))
        × (w.applied ≡ x.applied)
        × ((w.sent ≡ x.sent) ⊎ (w.sent ≡ amounts ∷ x.sent))
        × (v ≡ w)
        × ((c : Cache) → o ≢ returned c)
  unfolding on_reply
  unstamped_intent_halts too_much again out u amounts r cache x y z w v stop o stored sent lost
        later =
      let kept = Sends-kept y z amounts r sent in
      let same : w ≡ z = elim lost [
        | inl e ↦ e
        | inr (none_there, rest) ↦
            Runs-safe (λ q. q ≡ z) (λ _ _. Unit {0})
              (subst (λ k. Runs (on_reply pm too_much again out k) z stop w) none_there rest) refl
      ] in
      let at : w.intent ≡ some (u, []) =
        ap (λ (q : World fl). q.intent) same ∙ kept.0 ∙ ap (λ (q : World fl). q.intent) stored in
      let halts = found_unstamped w u cache v o at later in
      (
        at,
        ap (λ (q : World fl). q.applied) same ∙ kept.1 ∙ ap (λ (q : World fl). q.applied) stored,
        subst (λ (l : List (Dict fl.F)). (w.sent ≡ l) ⊎ (w.sent ≡ amounts ∷ l))
            (ap (λ (q : World fl). q.sent) stored)
            (subst (λ (q : World fl). (q.sent ≡ y.sent) ⊎ (q.sent ≡ amounts ∷ y.sent)) (sym same)
              kept.2),
        halts.0,
        halts.1,
      )
