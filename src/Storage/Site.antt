-- ===== src/Storage/Site.antt =====
-- storage/redis.go under payments/payer.go: payout runs over redis itself, with what the wallet sent. A
-- redis call may fail, and a transaction that failed has taken effect as a whole or not at all.
pub mod Refines
pub mod Steps
pub mod Told
pub mod Books
use not_only_mining_pool.Common.{ℕ, ◌≡◌, ◌⊎◌, Option, none, some, List, [], ◌∷◌, Bytes, plus}
use not_only_mining_pool.Common.Dict.{Dict, Distinct}
use not_only_mining_pool.Common.Float.{Float64}
use not_only_mining_pool.Storage.Redis.{FloatText, Command, Redis, exec_all, Fields, Members}
use not_only_mining_pool.Storage.Shares.{Storage}
use not_only_mining_pool.Storage.Reads.{
  get_pplns_shares, get_shares_since, get_round_contrib, get_all_miner_balances,
  get_all_pending_blocks, get_pps_cursor,
}
use not_only_mining_pool.Storage.Payouts.{
  Json, apply_payments, put_payout_intent, set_payout_intent_txid, del_payout_intent,
  get_payout_intent,
}
use not_only_mining_pool.Payments.Prog
use not_only_mining_pool.Payments.Prog.{
  Result, ok, err, Rpc, no_result, rpc_error, malformed, result, Call, Reply, Prog, done, fail,
  call,
}
use not_only_mining_pool.Payments.World.{Outcome, returned, failed, crashed}
use not_only_mining_pool.Payments.Settle.{Cache}
use not_only_mining_pool.Payments.Split.{PaymentManager}
use not_only_mining_pool.Payments.Run.{process_payments}

-- The database, and what the wallet has broadcast, newest first.
pub record Site (fl : Float64) (redis : Redis) : Type 0 where
  pub db : redis.Db
  pub sent : List (Dict fl.F)

module _ {fl : Float64} (redis : Redis) (texts : FloatText fl) (json : Json fl) (s : Storage) where
  open fl use {F}

  abbrev pub Executes : List Command → Site fl redis → Result (Unit {0}) → Site fl redis → Type 0
  Executes cs x (ok a) y = y ≡ record x { db = exec_all redis cs x.db }
  Executes cs x (err e) y = (y ≡ x) ⊎ (y ≡ record x { db = exec_all redis cs x.db })

  -- PutPayoutIntent fails in front of redis where Marshal does.
  abbrev pub Puts : Option Bytes → Site fl redis → Result (Unit {0}) → Site fl redis → Type 0
  Puts none x (ok a) y = ⊥
  Puts none x (err e) y = y ≡ x
  Puts (some b) x r y = Executes (put_payout_intent s b) x r y

  -- A read that answers, answers what the code makes of redis' reply.
  abbrev pub Answers : {A : Type 0} → Result A → Option A → Type 0
  Answers (ok a) got = got ≡ some a
  Answers (err e) got = Unit {0}

  -- A read of a hash or of a set, where redis answers at each key with a listing of what is there.
  abbrev pub AnswersFields :
      {A : Type 0} → Result A → redis.Db → ((Bytes → Dict Bytes) → Option A) → Type 0
  AnswersFields (ok a) db read =
      (hgetall : Bytes → Dict Bytes) × ((k : Bytes)
        → Distinct (hgetall k) × Fields (hgetall k) (redis.value db k))
      × (read hgetall ≡ some a)
  AnswersFields (err e) db read = Unit {0}

  abbrev pub AnswersMembers :
      {A : Type 0} → Result A → redis.Db → ((Bytes → List Bytes) → Option A) → Type 0
  AnswersMembers (ok a) db read =
      (smembers : Bytes → List Bytes) × ((k : Bytes) → Members (smembers k) (redis.value db k))
      × (read smembers ≡ some a)
  AnswersMembers (err e) db read = Unit {0}

  abbrev pub AnswersCursor : Result ℕ → redis.Db → Type 0
  AnswersCursor (ok n) db = get_pps_cursor redis s db ≡ some (plus n)
  AnswersCursor (err e) db = Unit {0}

  abbrev pub SentBy : Site fl redis → Dict F → Rpc Bytes → Site fl redis → Type 0
  SentBy x amounts no_result y = (y ≡ x) ⊎ (y ≡ record x { sent = amounts ∷ x.sent })
  SentBy x amounts (rpc_error c) y = y ≡ x
  SentBy x amounts malformed y = y ≡ record x { sent = amounts ∷ x.sent }
  SentBy x amounts (result txid) y = y ≡ record x { sent = amounts ∷ x.sent }

  -- A call, its reply, and the site after it.
  abbrev pub Serves : Site fl redis → (c : Call fl) → Reply fl c → Site fl redis → Type 0
  Serves x Prog.get_payout_intent r y = (y ≡ x) × AnswersFields r x.db (get_payout_intent json s)
  Serves x (Prog.put_payout_intent u) r y = Puts (json.marshal u) x r y
  Serves x (Prog.set_payout_intent_txid txid) r y = Executes (set_payout_intent_txid s txid) x r y
  Serves x Prog.del_payout_intent r y = Executes (del_payout_intent s) x r y
  Serves x (Prog.apply_payments u) r y = Executes (apply_payments texts s u) x r y
  Serves x Prog.get_all_miner_balances r y =
      (y ≡ x) × AnswersFields r x.db (get_all_miner_balances texts s)
  Serves x Prog.get_all_pending_blocks r y =
      (y ≡ x) × AnswersMembers r x.db (get_all_pending_blocks s)
  Serves x (Prog.get_round_contrib h) r y =
      (y ≡ x) × AnswersFields r x.db (λ hgetall. get_round_contrib texts s hgetall h)
  Serves x (Prog.get_pplns_shares m n) r y =
      (y ≡ x) × Answers r (some (get_pplns_shares texts redis s m n x.db))
  Serves x Prog.get_pps_cursor r y = (y ≡ x) × AnswersCursor r x.db
  Serves x (Prog.get_shares_since c) r y =
      (y ≡ x) × Answers r (some (get_shares_since texts redis s c x.db))
  Serves x (Prog.get_transaction t) r y = y ≡ x
  Serves x (Prog.get_block h) r y = y ≡ x
  Serves x (Prog.check_address a) r y = y ≡ x
  Serves x (Prog.send_many amounts) r y = SentBy x amounts r y

  -- The runs of a program over a site; one may be cut off before any of its calls.
  pub data Served {A : Type 0}
      : Prog fl A → Site fl redis → Outcome A → Site fl redis → Type 0 where
    returns : {a : A} {x : Site fl redis} → Served (done a) x (returned a) x
    fails : {e : Prog.Error} {x : Site fl redis} → Served (fail e) x (failed e) x
    crashes : {p : Prog fl A} {x : Site fl redis} → Served p x crashed x
    calls :
        {c : Call fl} {k : Reply fl c → Prog fl A} {x y z : Site fl redis} {o : Outcome A}
        → (r : Reply fl c) → Serves x c r y
        → Served (k r) y o z
        → Served (call c k) x o z

  -- The runs of a payer over a site, one after the other.
  pub data Service (pm : PaymentManager fl) (x : Site fl redis) : Site fl redis → Type 0 where
    started : Service pm x x
    ran :
        {y z : Site fl redis} {o : Outcome Cache} (cache : Cache)
        → Service pm x y
        → Served (process_payments pm cache) y o z
        → Service pm x z
