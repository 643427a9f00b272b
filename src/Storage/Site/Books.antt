-- ===== src/Storage/Site/Books.antt =====
-- payments/payer.go over storage/redis.go: the payouts that redis has recorded are what the wallet sent.
use not_only_mining_pool.Common.{◌≡◌, refl, sym, subst, ◌∙◌, ap, Option, none, some, [], Bytes}
use not_only_mining_pool.Common.Float.{Float64}
use not_only_mining_pool.Storage.Types.{PaymentUpdate}
use not_only_mining_pool.Storage.Redis.{FloatText, missing, field, Redis}
use not_only_mining_pool.Storage.Keys.{payouts_key, intent_key}
use not_only_mining_pool.Storage.Shares.{Storage}
use not_only_mining_pool.Storage.Payouts.{Json}
use not_only_mining_pool.Storage.Payouts.Paid.{total}
use not_only_mining_pool.Storage.Site.{Site, Service}
use not_only_mining_pool.Storage.Site.Refines.{Shows, Sums}
use not_only_mining_pool.Storage.Site.Steps.{Implements, Service-Lifetime}
use not_only_mining_pool.Payments.World.{World}
use not_only_mining_pool.Payments.Split.{PaymentManager}
use not_only_mining_pool.Payments.Ledger.{Books, BooksWith, Balanced, history, recorded}
use not_only_mining_pool.Payments.NoDoublePay.{Lifetime-Books}

abbrev pub fresh_world : {fl : Float64} → World fl
fresh_world = record { intent = none; sent = []; applied = [] }

module _ {fl : Float64} (redis : Redis) (texts : FloatText fl) (json : Json fl) (s : Storage)
    (unmarshal-marshal : (u : PaymentUpdate fl) (b : Bytes)
      → json.marshal u ≡ some b
      → json.unmarshal b ≡ some u)
    (unmarshal_none : json.unmarshal [] ≡ none) where
  -- No payouts yet.
  pub record IsFresh (x : Site fl redis) : Type 0 where
    pub no_intent : redis.value x.db (intent_key s.coin) ≡ missing
    pub no_payouts : redis.value x.db (payouts_key s.coin) ≡ missing
    pub none_sent : x.sent ≡ []

  pub IsFresh-Implements :
      (x : Site fl redis)
      → IsFresh x
      → Implements redis texts json s unmarshal-marshal unmarshal_none x fresh_world
  unfolding total recorded field
  IsFresh-Implements x f = (
    sym f.none_sent,
    subst (Shows redis texts json s none) (sym f.no_intent) (tt, refl),
    subst (Sums redis texts json s []) (sym f.no_payouts) (tt, λ a. refl),
  )

  Shows-missing :
      (i : Option (PaymentUpdate fl × Bytes)) → Shows redis texts json s i missing → i ≡ none
  unfolding field
  Shows-missing none h = refl
  Shows-missing (some (u, t)) (h, b, mar, at, id) = cc

  -- A payer over redis that starts without payouts, with a JSON whose Unmarshal reads back what Marshal
  -- writes and refuses the empty text: after any runs of processPayments, each of them cut off anywhere or not,
  -- if redis holds no intent then its hash of payouts has, for each address, the sum that redis makes
  -- of the amounts that the wallet has sent to it.
  pub payouts_are_sent :
      {pm : PaymentManager fl} {x y : Site fl redis}
      → IsFresh x
      → Service redis texts json s pm x y
      → redis.value y.db (intent_key s.coin) ≡ missing
      → (a : Bytes)
      → field (redis.value y.db (payouts_key s.coin)) a
        ≡ total texts s redis.add_float (history a y.sent)
  unfolding history recorded
  payouts_are_sent {pm = pm} {x = x} {y = y} fresh service gone a =
      let (v, lifetime, rel) =
        Service-Lifetime redis texts json s unmarshal-marshal unmarshal_none fresh_world
          (IsFresh-Implements x fresh) service in
      let idle : v.intent ≡ none =
        Shows-missing v.intent (subst (Shows redis texts json s v.intent) gone rel.1) in
      let books : Books v = Lifetime-Books pm (λ b. refl) lifetime in
      let balanced : Balanced v = subst (λ i. BooksWith i v) idle books in
      rel.2.1 a
      ∙ ap (total texts s redis.add_float) (sym (balanced a))
      ∙ ap (λ l. total texts s redis.add_float (history a l)) rel.0
