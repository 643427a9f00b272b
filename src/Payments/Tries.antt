-- ===== src/Payments/Tries.antt =====
-- payments/payer.go, settle: the tries, and the part that each withholds.
use not_only_mining_pool.Common.{
  ℕ, zero, suc, ◌<◌, ◌≤◌, ◌≡◌, refl, ◌≢◌, inl, inr, Bool, true, false, Bytes, List, [], ◌∷◌, arith,
  ◌&&◌, ltb, leb, if◌then◌else◌, Option-cases,
}
use not_only_mining_pool.Common.Dict.{Dict, lookup}
use not_only_mining_pool.Common.Float.{Float64}
use not_only_mining_pool.Storage.Types.{PaymentUpdate}
use not_only_mining_pool.Payments.Prog.{
  redis, fees, send_failed, out_of_fuel, Result, ok, err, Rpc, no_result, rpc_error, malformed,
  result, Reply, Prog, done, fail, call, ◌>>=◌, send_many,
}
use not_only_mining_pool.Payments.Split.{PaymentManager}
use not_only_mining_pool.Payments.Classify.{is_code}
use not_only_mining_pool.Payments.Settle.{
  Worker, Cache, valid_recipient, is_paid, to_send, choose_amounts, record_amounts, next_withhold,
  abandon, stamp, on_reply, pay, settle,
}

module _ {fl : Float64} where
  open fl use {F}

  -- No reply makes the program give up for want of fuel.
  abbrev pub Fuelled : {A : Type 0} → Prog fl A → Type 0
  Fuelled (done a) = Unit {0}
  Fuelled (fail e) = e ≢ out_of_fuel
  Fuelled (call c k) = (r : Reply fl c) → Fuelled (k r)

  pub Fuelled-bind :
      {A B : Type 0} (p : Prog fl A) (f : A → Prog fl B)
      → Fuelled p
      → ((a : A) → Fuelled (f a))
      → Fuelled (p >>= f)
  Fuelled-bind (done a) f h next = next a
  Fuelled-bind (fail e) f h next = h
  Fuelled-bind (call c k) f h next = λ r. Fuelled-bind (k r) f (h r) next

  pub if_Fuelled :
      {A : Type 0} (b : Bool) (p q : Prog fl A)
      → (b ≡ true → Fuelled p)
      → (b ≡ false → Fuelled q)
      → Fuelled (if b then p else q)
  if_Fuelled true p q hp hq = hp refl
  if_Fuelled false p q hp hq = hq refl

module _ {fl : Float64} (pm : PaymentManager fl) where
  open fl use {F, of_nat, le}

  -- What is withheld after `n` tries more.
  unfoldable pub withheld_after : ℕ → F → F
  withheld_after zero withhold = withhold
  withheld_after (suc n) withhold = withheld_after n (next_withhold pm withhold)

  valid_recipient-Fuelled : (addr : Bytes) (cache : Cache) → Fuelled (valid_recipient pm addr cache)
  unfolding valid_recipient
  valid_recipient-Fuelled addr cache = elim (Option-cases (lookup addr cache)) [
    | inl e ↦ rw (e, valid_recipient) (λ r. tt)
    | inr (b, e) ↦ rw (e, valid_recipient) tt
  ]

  choose_amounts-Fuelled :
      (withhold : F) (ws : List Worker) (cache : Cache)
      → Fuelled (choose_amounts pm withhold ws cache)
  unfolding choose_amounts is_paid
  choose_amounts-Fuelled withhold [] cache = tt
  choose_amounts-Fuelled withhold (w ∷ ws) cache =
      Fuelled-bind (is_paid pm withhold w cache) _
        (if_Fuelled (leb pm.min_payment (to_send pm withhold w) && ltb 0 (to_send pm withhold w))
          (valid_recipient pm w.address cache) (done (false, cache))
          (λ _. valid_recipient-Fuelled w.address cache) (λ _. tt))
        λ paid.
          Fuelled-bind (choose_amounts pm withhold ws paid.1) _
            (choose_amounts-Fuelled withhold ws paid.1) λ later. tt

  stamp-Fuelled : {A : Type 0} (txid : Bytes) (out : A) → Fuelled (stamp pm txid out)
  unfolding stamp
  stamp-Fuelled {A} txid out = replied
    where
      replied :
          (r : Result (Unit {0}))
          → Fuelled (elim r as (λ _. Prog fl A) [ err e ↦ fail (redis e) | ok _ ↦ done out ])
      replied (ok _) = tt
      replied (err e) = λ same. cc

  on_reply-Fuelled :
      {A : Type 0} (too_much : Bool) (again : Prog fl A) (out : A)
      → (too_much ≡ false → Fuelled again)
      → (r : Rpc Bytes) → Fuelled (on_reply pm too_much again out r)
  unfolding on_reply abandon
  on_reply-Fuelled too_much again out h no_result = λ e. cc
  on_reply-Fuelled too_much again out h (rpc_error c) =
      if_Fuelled (is_code 5 c) (if too_much then abandon pm fees else again)
        (abandon pm send_failed) (λ _. if_Fuelled too_much (abandon pm fees) again (λ _ r e. cc) h)
        (λ _ r e. cc)
  on_reply-Fuelled too_much again out h malformed = stamp-Fuelled [] out
  on_reply-Fuelled too_much again out h (result txid) = stamp-Fuelled txid out

  pay-Fuelled :
      {A : Type 0} (too_much : Bool) (again : Prog fl A) (u : PaymentUpdate fl) (out : A)
      (amounts : Dict F)
      → (too_much ≡ false → Fuelled again)
      → Fuelled (pay pm too_much again u out amounts)
  unfolding pay
  pay-Fuelled too_much again u out [] h = tt
  pay-Fuelled {A} too_much again u out (a ∷ amounts) h = stored
    where
      stored :
          (r : Result (Unit {0}))
          → Fuelled (elim r as (λ _. Prog fl A) [
            | err e ↦ fail (redis e)
            | ok _ ↦ call (send_many (a ∷ amounts)) (on_reply pm too_much again out)
          ])
      stored (ok _) = on_reply-Fuelled too_much again out h
      stored (err e) = λ same. cc

  -- Where the withheld part reaches everything after `n` more doublings, `n` tries are enough.
  pub settle-Fuelled :
      (n fuel : ℕ) (ws : List Worker) (u : PaymentUpdate fl) (withhold : F) (cache : Cache)
      → 0 < n
      → n ≤ fuel
      → le (of_nat 1) (withheld_after n withhold) ≡ true
      → Fuelled (settle pm fuel ws u withhold cache)
  unfolding settle withheld_after
  settle-Fuelled zero fuel ws u withhold cache pos h e = absurd (omega arith)
  settle-Fuelled (suc n) zero ws u withhold cache pos h e = absurd (omega arith)
  settle-Fuelled (suc zero) (suc fuel) ws u withhold cache pos h e =
      Fuelled-bind (choose_amounts pm withhold ws cache) _
        (choose_amounts-Fuelled withhold ws cache)
        λ out. pay-Fuelled _ _ _ _ out.0 (λ no. absurd (true_or_false e no))
    where
      true_or_false : {b : Bool} → b ≡ true → b ≡ false → ⊥
      true_or_false t f = cc
  settle-Fuelled (suc (suc n)) (suc fuel) ws u withhold cache pos h e =
      Fuelled-bind (choose_amounts pm withhold ws cache) _
        (choose_amounts-Fuelled withhold ws cache)
        λ out. pay-Fuelled _ _ _ _ out.0 λ _.
          settle-Fuelled (suc n) fuel out.1 (record_amounts pm out.1 u) (next_withhold pm withhold)
            out.2 (omega arith) (omega arith) e
