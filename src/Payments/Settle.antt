-- ===== src/Payments/Settle.antt =====
-- payments/payer.go: settle, which pays what is owed.
use not_only_mining_pool.Common.{
  ℕ, zero, suc, List, [], ◌∷◌, Bytes, Bool, true, false, none, some, ◌&&◌, if◌then◌else◌, ltb, leb,
}
use not_only_mining_pool.Common.Dict.{Dict, lookup, insert, delete}
use not_only_mining_pool.Common.Float.{Float64}
use not_only_mining_pool.Storage.Types.{PaymentUpdate}
use not_only_mining_pool.Payments.Prog.{
  Error, redis, no_response, fees, send_failed, out_of_fuel, ok, err, Rpc, no_result, rpc_error,
  malformed, result, put_payout_intent, set_payout_intent_txid, del_payout_intent, check_address,
  send_many, Prog, done, fail, call, ◌>>=◌,
}
use not_only_mining_pool.Payments.Split.{PaymentManager, add64, sub64, sat_to_coin}
use not_only_mining_pool.Payments.Classify.{is_code}

-- The struct worker
pub record Worker : Type 0 where
  pub address : Bytes
  pub balance : ℕ
  pub reward : ℕ
  pub sent : ℕ

-- `validAddr`, the payer's memory of checked addresses.
abbrev pub Cache : Type 0
Cache = Dict Bool

module _ {fl : Float64} (pm : PaymentManager fl) where
  open fl use {F, of_nat, sub, mul, div, lt, le, floor}

  unfoldable pub recipient_ok : Rpc Bool → Bool
  recipient_ok no_result = false
  recipient_ok (rpc_error c) = false
  recipient_ok malformed = if pm.checks_validity then false else true
  recipient_ok (result isvalid) = if pm.checks_validity then isvalid else true

  -- validRecipient
  unfoldable pub valid_recipient : Bytes → Cache → Prog fl (Bool × Cache)
  unfolding recipient_ok
  valid_recipient addr cache = elim (lookup addr cache) [
    | some v ↦ done (v, cache)
    | none ↦
        call (check_address addr)
          λ reply. let okay = recipient_ok reply in done (okay, insert addr okay cache)
  ]

  abbrev pub owed : Worker → ℕ
  owed w = add64 w.balance w.reward

  -- What a worker would be sent when a part of the payout is withheld.
  unfoldable pub to_send : F → Worker → ℕ
  to_send withhold w = floor (mul (of_nat (owed w)) (sub (of_nat 1) withhold))

  -- Whether a worker is paid: enough is owed, and then its address is checked.
  unfoldable pub is_paid : F → Worker → Cache → Prog fl (Bool × Cache)
  unfolding to_send valid_recipient
  is_paid withhold w cache =
      let amount = to_send withhold w in
      if leb pm.min_payment amount && ltb 0 amount
      then valid_recipient w.address cache
      else done (false, cache)

  -- The body of the first loop behind that test, over what the later workers are sent.
  unfoldable pub choose :
      F → Worker → Bool → Dict F × List Worker × Cache → Dict F × List Worker × Cache
  unfolding to_send
  choose withhold w pays (amounts, ws, cache) =
      let amount = to_send withhold w in
      if pays
      then (
        insert w.address (sat_to_coin fl pm amount) amounts,
        record w { sent = amount } ∷ ws,
        cache,
      )
      else (amounts, record w { sent = 0 } ∷ ws, cache)

  -- The first loop of settle: the amounts to send, with `w.Sent` of each worker.
  unfoldable pub choose_amounts : F → List Worker → Cache → Prog fl (Dict F × List Worker × Cache)
  unfolding is_paid choose
  choose_amounts withhold [] cache = done ([], [], cache)
  choose_amounts withhold (w ∷ ws) cache = is_paid withhold w cache >>= λ (pays, cache').
      choose_amounts withhold ws cache' >>= λ later. done (choose withhold w pays later)

  -- The second loop: the balances and payouts that result.
  unfoldable pub record_amounts : List Worker → PaymentUpdate fl → PaymentUpdate fl
  record_amounts [] u = u
  record_amounts (w ∷ ws) u =
      let balances = insert w.address (sat_to_coin fl pm (sub64 (owed w) w.sent)) u.balances in
      let paid =
        if ltb 0 w.sent
        then insert w.address (sat_to_coin fl pm w.sent) u.paid
        else delete w.address u.paid in
      record_amounts ws (record u { balances = balances; paid = paid })

  -- 0.01, the first part withheld; the literal is the float64 nearest to 1/100, and so is this.
  abbrev pub cent : F
  cent = div (of_nat 1) (of_nat 100)

  -- The part withheld on the next try.
  unfoldable pub next_withhold : F → F
  next_withhold withhold = let next = mul withhold (of_nat 2) in if lt next cent then cent else next

  -- `_ = pm.db.DelPayoutIntent()`, and the error
  unfoldable pub abandon : {A : Type 0} → Error → Prog fl A
  abandon e = call del_payout_intent λ _. fail e

  -- The broadcast succeeded: its id goes into the intent.
  unfoldable pub stamp : {A : Type 0} → Bytes → A → Prog fl A
  stamp txid out =
      call (set_payout_intent_txid txid)
        λ reply. elim reply [ err e ↦ fail (redis e) | ok _ ↦ done out ]

  -- What settle does with the reply to sendmany; `again` is its next try.
  unfoldable pub on_reply : {A : Type 0} → Bool → Prog fl A → A → Rpc Bytes → Prog fl A
  unfolding abandon stamp
  on_reply too_much again out no_result = fail no_response
  -- -6: the wallet cannot cover the fees
  on_reply too_much again out (rpc_error c) =
      if is_code 5 c then (if too_much then abandon fees else again) else abandon send_failed
  -- an id that does not decode is the empty string
  on_reply too_much again out malformed = stamp [] out
  on_reply too_much again out (result txid) = stamp txid out

  -- The rest of a try: nothing to send, or the intent and then sendmany.
  unfoldable pub pay : {A : Type 0} → Bool → Prog fl A → PaymentUpdate fl → A → Dict F → Prog fl A
  unfolding on_reply
  pay too_much again update out [] = done out
  pay too_much again update out (a ∷ amounts) = call (put_payout_intent update) λ stored.
      elim stored [
        | err e ↦ fail (redis e)
        | ok _ ↦ call (send_many (a ∷ amounts)) (on_reply too_much again out)
      ]

  -- settle, with the update that it fills and the cache that it leaves. The fuel bounds the tries;
  -- running out of it is an error that the source does not have.
  unfoldable pub settle :
      ℕ → List Worker → PaymentUpdate fl → F → Cache → Prog fl (PaymentUpdate fl × Cache)
  unfolding choose_amounts record_amounts next_withhold pay
  settle zero workers update withhold cache = fail out_of_fuel
  settle (suc fuel) workers update withhold cache =
      choose_amounts withhold workers cache >>= λ (amounts, ws, cache').
      let update' = record_amounts ws update in
      let next = next_withhold withhold in
      let again = settle fuel ws update' next cache' in
      pay (le (of_nat 1) next) again update' (update', cache') amounts
