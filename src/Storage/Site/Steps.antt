-- ===== src/Storage/Site/Steps.antt =====
-- storage/redis.go under payments/payer.go: each call of a payout run, and so each run, is one of the
-- payer's world.
use not_only_mining_pool.Common.{
  ◌≡◌, refl, sym, subst, ◌∙◌, ap, inl, inr, Option, none, some, [], ◌∷◌, Bytes, Signed,
}
use not_only_mining_pool.Common.Dict.{Dict, Distinct, lookup}
use not_only_mining_pool.Common.Float.{Float64}
use not_only_mining_pool.Storage.Types.{PaymentUpdate}
use not_only_mining_pool.Storage.Redis.{FloatText, Value, field, Redis}
use not_only_mining_pool.Storage.Keys.{intent_key}
use not_only_mining_pool.Storage.Shares.{Storage}
use not_only_mining_pool.Storage.Payouts.{
  Json, apply_payments, put_payout_intent, set_payout_intent_txid, del_payout_intent,
  get_payout_intent, intent_of, text_at, update_field, txid_field,
}
use not_only_mining_pool.Storage.Reads.{get_pplns_shares}
use not_only_mining_pool.Storage.Reads.Maps.{
  get_pplns_shares-Distinct, get_round_contrib-Distinct, get_all_miner_balances-Distinct,
}
use not_only_mining_pool.Storage.Site.{
  Site, Puts, Answers, AnswersFields, Serves, Served, returns, fails, crashes, calls, Service,
  started, ran, SentBy,
}
use not_only_mining_pool.Storage.Site.Told.{ToldAll, Serves-Told}
use not_only_mining_pool.Storage.Site.Refines.{
  Shows, Related, executes, put_Related, stamp_Related, del_Related, apply_Related,
}
use not_only_mining_pool.Payments.Prog
use not_only_mining_pool.Payments.Prog.{
  Result, ok, err, Rpc, no_result, rpc_error, malformed, result, Call, Reply, Prog,
}
use not_only_mining_pool.Payments.World
use not_only_mining_pool.Payments.World.{
  World, Writes, Reads, Sends, Step, DistinctReply, Outcome, Runs, stamped,
}
use not_only_mining_pool.Payments.Split.{PaymentManager}
use not_only_mining_pool.Payments.NoDoublePay
use not_only_mining_pool.Payments.NoDoublePay.{Lifetime}

module _ {fl : Float64} (redis : Redis) (texts : FloatText fl) (json : Json fl) (s : Storage)
    (unmarshal-marshal : (u : PaymentUpdate fl) (b : Bytes)
      → json.marshal u ≡ some b
      → json.unmarshal b ≡ some u)
    (unmarshal_none : json.unmarshal [] ≡ none) where
  open fl use {F}

  abbrev pub Implements : Site fl redis → World fl → Type 0
  Implements = Related redis texts json s

  unchanged : (x y : Site fl redis) (w : World fl) → Implements x w → y ≡ x → Implements y w
  unchanged x y w rel e = subst (λ z. Implements z w) (sym e) rel

  text_at-none : (k : Bytes) (d : Dict Bytes) → lookup k d ≡ none → text_at k d ≡ []
  unfolding text_at
  text_at-none k d e = rw (text_at, e) refl

  text_at-some : (k v : Bytes) (d : Dict Bytes) → lookup k d ≡ some v → text_at k d ≡ v
  unfolding text_at
  text_at-some k v d e = rw (text_at, e) refl

  intent_of-malformed :
      (x : Bytes × Bytes) (m : Dict Bytes)
      → json.unmarshal (text_at update_field (x ∷ m)) ≡ none
      → intent_of json (x ∷ m) ≡ none
  unfolding intent_of
  intent_of-malformed x m e = rw (intent_of, e) refl

  intent_of-update :
      (x : Bytes × Bytes) (m : Dict Bytes) (u : PaymentUpdate fl)
      → json.unmarshal (text_at update_field (x ∷ m)) ≡ some u
      → intent_of json (x ∷ m) ≡ some (some (u, text_at txid_field (x ∷ m)))
  unfolding intent_of
  intent_of-update x m u e = rw (intent_of, e) refl

  intent_of-Shows :
      (d : Dict Bytes) (i : Option (PaymentUpdate fl × Bytes)) (v : Value)
      (found : Option (PaymentUpdate fl × Bytes))
      → ((f : Bytes) → lookup f d ≡ field v f)
      → Shows redis texts json s i v
      → intent_of json d ≡ some found
      → found ≡ i
  unfolding intent_of lookup
  intent_of-Shows [] none v found same h e = cc
  intent_of-Shows (x ∷ m) none v found same h e =
      let missing_update : lookup update_field (x ∷ m) ≡ none = same update_field ∙ h.1 in
      let wrong : intent_of json (x ∷ m) ≡ none =
        intent_of-malformed x m
          (ap json.unmarshal (text_at-none update_field (x ∷ m) missing_update) ∙ unmarshal_none) in
      let clash : none ≡ some found = sym wrong ∙ e in cc
  intent_of-Shows [] (some (u, t)) v found same (h, b, mar, at, id) e =
      let there : none ≡ some b = same update_field ∙ at in cc
  intent_of-Shows (x ∷ m) (some (u, t)) v found same (h, b, mar, at, id) e =
      let read : intent_of json (x ∷ m) ≡ some (some (u, text_at txid_field (x ∷ m))) =
        intent_of-update x m u (
          ap json.unmarshal (text_at-some update_field b (x ∷ m) (same update_field ∙ at))
          ∙ unmarshal-marshal u b mar) in
      let txid : text_at txid_field (x ∷ m) ≡ t =
        text_at-some txid_field t (x ∷ m) (same txid_field ∙ id) in
      let stored : some found ≡ some (some (u, t)) = sym e ∙ rw (read, txid) refl in cc

  Reads-intent :
      (x : Site fl redis) (w : World fl) (r : Result (Option (PaymentUpdate fl × Bytes)))
      → Implements x w
      → AnswersFields redis texts json s r x.db (get_payout_intent json s)
      → Reads r w
  unfolding get_payout_intent
  Reads-intent x w (err m) rel e = tt
  Reads-intent x w (ok found) rel e =
      intent_of-Shows (e.0 (intent_key s.coin)) w.intent _ found (e.1 (intent_key s.coin)).1 rel.1
        e.2

  Answers-Distinct :
      (r : Result (Dict F)) (got : Option (Dict F))
      → ((m : Dict F) → got ≡ some m → Distinct m)
      → Answers redis texts json s r got
      → DistinctReply r
  Answers-Distinct (ok m) got d e = d m e
  Answers-Distinct (err m) got d e = tt

  Puts-Step :
      (u : PaymentUpdate fl) (o : Option Bytes) (x y : Site fl redis) (w : World fl)
      (r : Result (Unit {0}))
      → json.marshal u ≡ o
      → Implements x w
      → Puts redis texts json s o x r y
      → (v : World fl) × Writes w r v (record w { intent = some (u, []) }) × Implements y v
  Puts-Step u none x y w (ok a) e rel p = elim p [ ]
  Puts-Step u none x y w (err m) e rel p = (w, inl refl, unchanged x y w rel p)
  Puts-Step u (some b) x y w r e rel p =
      executes redis texts json s (put_payout_intent s b) x y w _ r rel
        (put_Related redis texts json s u b x w e rel) p

  broadcast :
      (amounts : Dict F) (x y : Site fl redis) (w : World fl)
      → Implements x w
      → y ≡ record x { sent = amounts ∷ x.sent }
      → Implements y (record w { sent = amounts ∷ w.sent })
  broadcast amounts x y w rel e =
      subst (λ z. Implements z (record w { sent = amounts ∷ w.sent })) (sym e)
        (ap (λ l. amounts ∷ l) rel.0, rel.1, rel.2)

  Sends-Step :
      (amounts : Dict F) (x y : Site fl redis) (w : World fl) (r : Rpc Bytes)
      → Implements x w
      → SentBy redis texts json s x amounts r y
      → (v : World fl) × Sends w amounts r v × Implements y v
  Sends-Step amounts x y w no_result rel (inl e) = (w, inl refl, unchanged x y w rel e)
  Sends-Step amounts x y w no_result rel (inr e) = (_, inr refl, broadcast amounts x y w rel e)
  Sends-Step amounts x y w (rpc_error c) rel e = (w, refl, unchanged x y w rel e)
  Sends-Step amounts x y w malformed rel e = (_, refl, broadcast amounts x y w rel e)
  Sends-Step amounts x y w (result txid) rel e = (_, refl, broadcast amounts x y w rel e)

  window_Distinct :
      (m : Signed) (n : F) (db : redis.Db) (r : Dict F)
      → some (get_pplns_shares texts redis s m n db) ≡ some r
      → Distinct r
  window_Distinct m n db r e =
      let same : get_pplns_shares texts redis s m n db ≡ r = cc in
      subst Distinct same (get_pplns_shares-Distinct texts redis s m n db)

  Fields-Distinct :
      (r : Result (Dict F)) (db : redis.Db) (read : (Bytes → Dict Bytes) → Option (Dict F))
      → ((hgetall : Bytes → Dict Bytes) (m : Dict F) → read hgetall ≡ some m → Distinct m)
      → AnswersFields redis texts json s r db read
      → DistinctReply r
  Fields-Distinct (ok m) db read d e = d e.0 m e.2
  Fields-Distinct (err m) db read d e = tt

  -- A call over a site is a step of the world that the site implements.
  pub Serves-Step :
      (c : Call fl) (r : Reply fl c) (x y : Site fl redis) (w : World fl)
      → Implements x w
      → Serves redis texts json s x c r y
      → (v : World fl) × Step w c r v × Implements y v
  Serves-Step Prog.get_payout_intent r x y w rel e =
      (w, (refl, Reads-intent x w r rel e.1), unchanged x y w rel e.0)
  Serves-Step (Prog.put_payout_intent u) r x y w rel e = Puts-Step u _ x y w r refl rel e
  Serves-Step (Prog.set_payout_intent_txid txid) r x y w rel e =
      executes redis texts json s (set_payout_intent_txid s txid) x y w _ r rel
        (stamp_Related redis texts json s txid x w rel) e
  Serves-Step Prog.del_payout_intent r x y w rel e =
      executes redis texts json s (del_payout_intent s) x y w _ r rel
        (del_Related redis texts json s x w rel) e
  Serves-Step (Prog.apply_payments u) r x y w rel e =
      executes redis texts json s (apply_payments texts s u) x y w _ r rel
        (apply_Related redis texts json s u x w rel) e
  Serves-Step Prog.get_all_miner_balances r x y w rel e = (
    w,
    (refl, Fields-Distinct r _ _ (get_all_miner_balances-Distinct texts s) e.1),
    unchanged x y w rel e.0,
  )
  Serves-Step Prog.get_all_pending_blocks r x y w rel e = (w, refl, unchanged x y w rel e.0)
  Serves-Step (Prog.get_round_contrib h) r x y w rel e = (
    w,
    (refl, Fields-Distinct r _ _ (λ g. get_round_contrib-Distinct texts s g h) e.1),
    unchanged x y w rel e.0,
  )
  Serves-Step (Prog.get_pplns_shares m n) r x y w rel e =
      (w, (refl, Answers-Distinct r _ (window_Distinct m n x.db) e.1), unchanged x y w rel e.0)
  Serves-Step Prog.get_pps_cursor r x y w rel e = (w, refl, unchanged x y w rel e.0)
  Serves-Step (Prog.get_shares_since c) r x y w rel e = (w, refl, unchanged x y w rel e.0)
  Serves-Step (Prog.get_transaction t) r x y w rel e = (w, refl, unchanged x y w rel e)
  Serves-Step (Prog.get_block h) r x y w rel e = (w, refl, unchanged x y w rel e)
  Serves-Step (Prog.check_address a) r x y w rel e = (w, refl, unchanged x y w rel e)
  Serves-Step (Prog.send_many amounts) r x y w rel e = Sends-Step amounts x y w r rel e

  -- A run over redis, each of whose calls may fail, is a run of the payer's World, from a world that redis
  -- implements to one that it implements, with the same outcome; and its reads were told what redis
  -- holds: balances and the shares of a round as the numbers in the fields of their hashes, each
  -- pending block that is in its set, and the cursor. Unmarshal has to read back what Marshal writes and
  -- to refuse the empty text.
  pub Served-Runs :
      {A : Type 0} {p : Prog fl A} {x y : Site fl redis} {o : Outcome A} (w : World fl)
      → Implements x w
      → (run : Served redis texts json s p x o y)
      → (v : World fl) × Runs p w o v × Implements y v × ToldAll redis texts json s run
  Served-Runs w rel returns = (w, World.returns, rel, tt)
  Served-Runs w rel fails = (w, World.fails, rel, tt)
  Served-Runs w rel crashes = (w, World.crashes, rel, tt)
  Served-Runs w rel (calls {c = c} {x = x} {y = y} r st rest) =
      let (v, step, rel') = Serves-Step c r x y w rel st in
      let (u, runs, rel'', told) = Served-Runs v rel' rest in
      (u, World.calls r step runs, rel'', (Serves-Told redis texts json s c r x y st, told))

  -- The runs of a payer over redis are a lifetime of its world.
  pub Service-Lifetime :
      {pm : PaymentManager fl} {x y : Site fl redis} (w : World fl)
      → Implements x w
      → Service redis texts json s pm x y
      → (v : World fl) × Lifetime pm w v × Implements y v
  Service-Lifetime w rel started = (w, NoDoublePay.started, rel)
  Service-Lifetime w rel (ran cache before run) =
      let (v, lifetime, rel') = Service-Lifetime w rel before in
      let (u, runs, rel'', told) = Served-Runs v rel' run in
      (u, NoDoublePay.ran cache lifetime runs, rel'')
