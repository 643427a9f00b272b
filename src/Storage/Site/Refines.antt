-- ===== src/Storage/Site/Refines.antt =====
-- storage/redis.go: the database does what the payer relies on.
use not_only_mining_pool.Common.{
  ◌≡◌, refl, sym, subst, ◌∙◌, ap, inl, inr, false, Option, none, some, List, [], ◌∷◌, Bytes,
  Option-cases, All,
}
use not_only_mining_pool.Common.Texts.{text_eq}
use not_only_mining_pool.Common.Dict.{Dict, lookup}
use not_only_mining_pool.Common.Float.{Float64}
use not_only_mining_pool.Storage.Types.{PaymentUpdate}
use not_only_mining_pool.Storage.Redis.{
  FloatText, Value, missing, field, Command, on, hset, del, Redis, exec_all, updated, written,
  with_fields,
}
use not_only_mining_pool.Storage.Redis.After.{
  Misses, after_all, after_all-else, after-on, value-exec_all,
}
use not_only_mining_pool.Storage.Redis.Hashes.{IsHash, hset-IsHash, field-hset}
use not_only_mining_pool.Storage.Keys.{apart, payouts_key, intent_key}
use not_only_mining_pool.Storage.Shares.{Storage}
use not_only_mining_pool.Storage.Payouts.{
  Json, apply_payments, put_payout_intent, set_payout_intent_txid, del_payout_intent, update_field,
  txid_field,
}
use not_only_mining_pool.Storage.Payouts.Paid.{
  total, and_paid, payouts-apply_payments, intent-apply_payments,
}
use not_only_mining_pool.Storage.Site.{Site, Executes}
use not_only_mining_pool.Payments.Prog.{Result, ok, err}
use not_only_mining_pool.Payments.World.{World, Writes, stamped}
use not_only_mining_pool.Payments.Ledger.{recorded}

module _ {fl : Float64} (redis : Redis) (texts : FloatText fl) (json : Json fl) (s : Storage) where
  open fl use {F}

  -- How redis holds an intent.
  abbrev pub Shows : Option (PaymentUpdate fl × Bytes) → Value → Type 0
  Shows none v = IsHash v × (field v update_field ≡ none)
  Shows (some (u, txid)) v =
      IsHash v
      × (b : Bytes) × (json.marshal u ≡ some b)
      × (field v update_field ≡ some b)
      × (field v txid_field ≡ some txid)

  -- How redis holds what was applied: for each address the sum of the amounts.
  abbrev pub Sums : List (PaymentUpdate fl) → Value → Type 0
  Sums applied v =
      IsHash v × ((a : Bytes) → field v a ≡ total texts s redis.add_float (recorded a applied))

  -- The world of the payer that a site implements.
  abbrev pub Related : Site fl redis → World fl → Type 0
  Related x w =
      (w.sent ≡ x.sent)
      × Shows w.intent (redis.value x.db (intent_key s.coin))
      × Sums w.applied (redis.value x.db (payouts_key s.coin))

  -- A transaction is a write of the payer's world, where it takes a site to one of the world after it.
  pub executes :
      (cs : List Command) (x y : Site fl redis) (w next : World fl) (r : Result (Unit {0}))
      → Related x w
      → Related (record x { db = exec_all redis cs x.db }) next
      → Executes redis texts json s cs x r y
      → (v : World fl) × Writes w r v next × Related y v
  executes cs x y w next (ok a) rel rel' e = (next, refl, subst (λ z. Related z next) (sym e) rel')
  executes cs x y w next (err m) rel rel' (inl e) =
      (w, inl refl, subst (λ z. Related z w) (sym e) rel)
  executes cs x y w next (err m) rel rel' (inr e) =
      (next, inr refl, subst (λ z. Related z next) (sym e) rel')

  -- A write of fields of the intent.
  hset_intent :
      (fs : Dict Bytes) (x : Site fl redis)
      → redis.value
          (exec_all redis (on (intent_key s.coin) (hset fs) ∷ []) x.db)
          (intent_key s.coin)
        ≡ written redis.add_float (hset fs) (redis.value x.db (intent_key s.coin))
  unfolding after_all
  hset_intent fs x =
      ap (λ g. g (intent_key s.coin)) (value-exec_all redis _ x.db)
      ∙ after-on redis.add_float (intent_key s.coin) (hset fs) (redis.value x.db)

  keeps_payouts :
      (cs : List Command) (x : Site fl redis) (applied : List (PaymentUpdate fl))
      → All (Misses (payouts_key s.coin)) cs
      → Sums applied (redis.value x.db (payouts_key s.coin))
      → Sums applied (redis.value (exec_all redis cs x.db) (payouts_key s.coin))
  keeps_payouts cs x applied h sums =
      subst (Sums applied)
        (sym (
          ap (λ g. g (payouts_key s.coin)) (value-exec_all redis cs x.db)
          ∙ after_all-else redis.add_float cs (payouts_key s.coin) (redis.value x.db) h))
        sums

  intent-≢-payouts : text_eq (intent_key s.coin) (payouts_key s.coin) ≡ false
  unfolding text_eq
  intent-≢-payouts = apart s.coin _ _ refl

  Shows-IsHash : (i : Option (PaymentUpdate fl × Bytes)) (v : Value) → Shows i v → IsHash v
  Shows-IsHash none v h = h.0
  Shows-IsHash (some (u, t)) v h = h.0

  put-Shows :
      (u : PaymentUpdate fl) (b : Bytes) (v : Value)
      → json.marshal u ≡ some b
      → IsHash v
      → Shows
          (some (u, []))
          (written redis.add_float (hset ((update_field, b) ∷ (txid_field, []) ∷ [])) v)
  unfolding with_fields updated text_eq
  put-Shows u b v e h =
      let fs : Dict Bytes = (update_field, b) ∷ (txid_field, []) ∷ [] in
      (
        hset-IsHash redis.add_float fs v h,
        b,
        e,
        field-hset redis.add_float fs v update_field h,
        field-hset redis.add_float fs v txid_field h,
      )

  stamp-Shows :
      (i : Option (PaymentUpdate fl × Bytes)) (txid : Bytes) (v : Value)
      → Shows i v
      → Shows (stamped txid i) (written redis.add_float (hset ((txid_field, txid) ∷ [])) v)
  unfolding with_fields updated text_eq
  stamp-Shows none txid v h =
      let fs : Dict Bytes = (txid_field, txid) ∷ [] in
      (hset-IsHash redis.add_float fs v h.0, field-hset redis.add_float fs v update_field h.0 ∙ h.1)
  stamp-Shows (some (u, t)) txid v (h, b, e, at, _) =
      let fs : Dict Bytes = (txid_field, txid) ∷ [] in
      (
        hset-IsHash redis.add_float fs v h,
        b,
        e,
        field-hset redis.add_float fs v update_field h ∙ at,
        field-hset redis.add_float fs v txid_field h,
      )

  pub put_Related :
      (u : PaymentUpdate fl) (b : Bytes) (x : Site fl redis) (w : World fl)
      → json.marshal u ≡ some b
      → Related x w
      → Related
          (record x { db = exec_all redis (put_payout_intent s b) x.db })
          (record w { intent = some (u, []) })
  unfolding put_payout_intent
  put_Related u b x w e rel = (
    rel.0,
    subst (Shows (some (u, []))) (sym (hset_intent _ x))
        (put-Shows u b _ e (Shows-IsHash w.intent _ rel.1)),
    keeps_payouts _ x w.applied (intent-≢-payouts, tt) rel.2,
  )

  pub stamp_Related :
      (txid : Bytes) (x : Site fl redis) (w : World fl)
      → Related x w
      → Related
          (record x { db = exec_all redis (set_payout_intent_txid s txid) x.db })
          (record w { intent = stamped txid w.intent })
  unfolding set_payout_intent_txid
  stamp_Related txid x w rel = (
    rel.0,
    subst (Shows (stamped txid w.intent)) (sym (hset_intent _ x))
        (stamp-Shows w.intent txid _ rel.1),
    keeps_payouts _ x w.applied (intent-≢-payouts, tt) rel.2,
  )

  pub del_Related :
      (x : Site fl redis) (w : World fl)
      → Related x w
      → Related
          (record x { db = exec_all redis (del_payout_intent s) x.db })
          (record w { intent = none })
  unfolding del_payout_intent after_all written field
  del_Related x w rel =
      let gone : redis.value (exec_all redis (on (intent_key s.coin) del ∷ []) x.db)
            (intent_key s.coin)
          ≡ missing =
        ap (λ g. g (intent_key s.coin)) (value-exec_all redis _ x.db)
        ∙ after-on redis.add_float (intent_key s.coin) del (redis.value x.db) in
      (
        rel.0,
        subst (Shows none) (sym gone) (tt, refl),
        keeps_payouts _ x w.applied (intent-≢-payouts, tt) rel.2,
      )

  sums_more :
      (u : PaymentUpdate fl) (applied : List (PaymentUpdate fl)) (a : Bytes)
      → and_paid texts s redis.add_float
          (lookup a u.paid)
          (total texts s redis.add_float (recorded a applied))
        ≡ total texts s redis.add_float (recorded a (u ∷ applied))
  unfolding and_paid total recorded
  sums_more u applied a = elim (Option-cases (lookup a u.paid)) [
    | inl e ↦ rw e refl
    | inr (x, e) ↦ rw e refl
  ]

  pub apply_Related :
      (u : PaymentUpdate fl) (x : Site fl redis) (w : World fl)
      → Related x w
      → Related
          (record x { db = exec_all redis (apply_payments texts s u) x.db })
          (record w { intent = none; applied = u ∷ w.applied })
  unfolding field
  apply_Related u x w rel =
      let g : redis.value (exec_all redis (apply_payments texts s u) x.db)
          ≡ after_all redis.add_float (apply_payments texts s u) (redis.value x.db) =
        value-exec_all redis _ x.db in
      let paid = λ (a : Bytes).
        payouts-apply_payments texts s redis.add_float u (redis.value x.db) a rel.2.0 in
      (
        rel.0,
        subst (Shows none)
            (sym (
              ap (λ h. h (intent_key s.coin)) g
              ∙ intent-apply_payments texts s redis.add_float u (redis.value x.db)))
            (tt, refl),
        subst (λ h. Sums (u ∷ w.applied) (h (payouts_key s.coin))) (sym g)
            (
              (paid []).0,
              λ a.
                  (paid a).1
                  ∙ ap (and_paid texts s redis.add_float (lookup a u.paid)) (rel.2.1 a)
                  ∙ sums_more u w.applied a,
            ),
      )
