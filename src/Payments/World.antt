-- ===== src/Payments/World.antt =====
-- The world of a payout run: the intent in redis, what the wallet has broadcast and what redis has
-- recorded. Redis and the wallet are not part of the source: `Step` says what their documentation
-- promises of a call, and leaves open what it does not: whether a call that failed took effect.
use not_only_mining_pool.Common.{◌≡◌, sym, subst, ◌⊎◌, List, [], ◌∷◌, Bytes, Option, none, some}
use not_only_mining_pool.Common.Dict.{Dict, Distinct}
use not_only_mining_pool.Common.Float.{Float64}
use not_only_mining_pool.Storage.Types.{PaymentUpdate}
use not_only_mining_pool.Payments.Prog.{
  Error, Result, ok, err, Rpc, no_result, rpc_error, malformed, result, Call, Reply,
  get_payout_intent, put_payout_intent, set_payout_intent_txid, del_payout_intent, apply_payments,
  get_all_miner_balances, get_all_pending_blocks, get_round_contrib, get_pplns_shares,
  get_pps_cursor, get_shares_since, get_transaction, get_block, check_address, send_many, Prog,
  done, fail, call, ◌>>=◌,
}

abbrev pub DistinctReply {ℓ} : {V : Type ℓ} → Result (Dict V) → Type ℓ
DistinctReply (ok m) = Distinct m
DistinctReply (err e) = Unit

-- How a run ends.
pub data Outcome (A : Type 0) : Type 0 where
  returned : A → Outcome A
  failed : Error → Outcome A
  crashed : Outcome A

module _ (fl : Float64) where
  -- `sent` and `applied` have the newest first.
  pub record World : Type 0 where
    pub intent : Option (PaymentUpdate fl × Bytes)
    pub sent : List (Dict fl.F)
    pub applied : List (PaymentUpdate fl)

module _ {fl : Float64} where
  open fl use {F}

  -- HSET of one field of the intent
  abbrev pub stamped : Bytes → Option (PaymentUpdate fl × Bytes) → Option (PaymentUpdate fl × Bytes)
  stamped txid none = none
  stamped txid (some (u, old)) = some (u, txid)

  -- A redis write takes effect if it answers; if it fails it may have.
  abbrev pub Writes : World fl → Result (Unit {0}) → World fl → World fl → Type 0
  Writes w (ok a) w' after = w' ≡ after
  Writes w (err e) w' after = (w' ≡ w) ⊎ (w' ≡ after)

  -- sendmany: an error says that the node has not broadcast, a result that it has.
  abbrev pub Sends : World fl → Dict F → Rpc Bytes → World fl → Type 0
  Sends w amounts no_result w' = (w' ≡ w) ⊎ (w' ≡ record w { sent = amounts ∷ w.sent })
  Sends w amounts (rpc_error c) w' = w' ≡ w
  Sends w amounts malformed w' = w' ≡ record w { sent = amounts ∷ w.sent }
  Sends w amounts (result txid) w' = w' ≡ record w { sent = amounts ∷ w.sent }

  abbrev pub Reads : Result (Option (PaymentUpdate fl × Bytes)) → World fl → Type 0
  Reads (ok found) w = found ≡ w.intent
  Reads (err e) w = Unit {0}

  abbrev pub Step : World fl → (c : Call fl) → Reply fl c → World fl → Type 0
  Step w get_payout_intent r w' = (w' ≡ w) × Reads r w
  Step w (put_payout_intent u) r w' = Writes w r w' (record w { intent = some (u, []) })
  Step w (set_payout_intent_txid txid) r w' =
      Writes w r w' (record w { intent = stamped txid w.intent })
  Step w del_payout_intent r w' = Writes w r w' (record w { intent = none })
  Step w (apply_payments u) r w' =
      Writes w r w' (record w { intent = none; applied = u ∷ w.applied })
  Step w get_all_miner_balances r w' = (w' ≡ w) × DistinctReply r
  Step w get_all_pending_blocks r w' = w' ≡ w
  Step w (get_round_contrib h) r w' = (w' ≡ w) × DistinctReply r
  Step w (get_pplns_shares m n) r w' = (w' ≡ w) × DistinctReply r
  Step w get_pps_cursor r w' = w' ≡ w
  Step w (get_shares_since c) r w' = w' ≡ w
  Step w (get_transaction t) r w' = w' ≡ w
  Step w (get_block h) r w' = w' ≡ w
  Step w (check_address a) r w' = w' ≡ w
  Step w (send_many amounts) r w' = Sends w amounts r w'

  -- The runs of a program from a world to a world; one may be cut off before any of its calls.
  pub data Runs {A : Type 0} : Prog fl A → World fl → Outcome A → World fl → Type 0 where
    returns : {a : A} {w : World fl} → Runs (done a) w (returned a) w
    fails : {e : Error} {w : World fl} → Runs (fail e) w (failed e) w
    crashes : {p : Prog fl A} {w : World fl} → Runs p w crashed w
    calls :
        {c : Call fl} {k : Reply fl c → Prog fl A} {w v u : World fl} {o : Outcome A}
        → (r : Reply fl c) → Step w c r v
        → Runs (k r) v o u
        → Runs (call c k) w o u

  -- A postcondition of what a run returned.
  abbrev pub Holds : {A : Type 0} → (A → World fl → Type 0) → Outcome A → World fl → Type 0
  Holds Q (returned a) w = Q a w
  Holds Q (failed e) w = Unit {0}
  Holds Q crashed w = Unit {0}

  -- `Safe I Q p w`: from `w`, each world at which `p` may be cut off or end satisfies `I`, and where
  -- it returns a value, `Q` holds of it and of the world.
  module _ (I : World fl → Type 0) where
    abbrev pub Safe : {A : Type 0} → (A → World fl → Type 0) → Prog fl A → World fl → Type 0
    Safe Q (done a) w = I w × Q a w
    Safe Q (fail e) w = I w
    Safe Q (call c k) w = I w × ((r : Reply fl c) (v : World fl) → Step w c r v → Safe Q (k r) v)

    pub Safe-bind :
        {A B : Type 0} (Q : A → World fl → Type 0) (R : B → World fl → Type 0) (p : Prog fl A)
        (f : A → Prog fl B) (w : World fl)
        → Safe Q p w
        → ((a : A) (v : World fl) → I v → Q a v → Safe R (f a) v)
        → Safe R (p >>= f) w
    Safe-bind Q R (done a) f w s next = next a w s.0 s.1
    Safe-bind Q R (fail e) f w s next = s
    Safe-bind Q R (call c k) f w s next = (s.0, λ r v st. Safe-bind Q R (k r) f v (s.1 r v st) next)

    -- A run of a safe program ends, or is cut off, at a world that satisfies `I`.
    pub Runs-safe :
        {A : Type 0} (Q : A → World fl → Type 0) {p : Prog fl A} {w u : World fl} {o : Outcome A}
        → Runs p w o u
        → Safe Q p w
        → I u
    Runs-safe Q returns s = s.0
    Runs-safe Q fails s = s
    Runs-safe Q (crashes {p = done a}) s = s.0
    Runs-safe Q (crashes {p = fail e}) s = s
    Runs-safe Q (crashes {p = call c k}) s = s.0
    Runs-safe Q (calls r st rest) s = Runs-safe Q rest (s.1 r _ st)

    -- What it returns satisfies its postcondition.
    pub Runs-returned :
        {A : Type 0} (Q : A → World fl → Type 0) {p : Prog fl A} {w u : World fl} {o : Outcome A}
        (a : A)
        → Runs p w o u
        → o ≡ returned a
        → Safe Q p w
        → Q a u
    Runs-returned Q {u = u} a (returns {a = b}) e s = subst (λ o. Holds Q o u) e s.1
    Runs-returned Q a fails e s = cc
    Runs-returned Q a crashes e s = cc
    Runs-returned Q a (calls r st rest) e s = Runs-returned Q a rest e (s.1 r _ st)

  -- A program that leaves the world alone and whose value satisfies `P`.
  module _ (I : World fl → Type 0) (w : World fl) where
    abbrev pub Quiet : {A : Type 0} → (A → Type 0) → Prog fl A → Type 0
    Quiet P p = Safe I (λ a v. (v ≡ w) × P a) p w

    pub Quiet-bind :
        {A B : Type 0} (P : A → Type 0) (R : B → World fl → Type 0) (p : Prog fl A)
        (f : A → Prog fl B)
        → Quiet P p
        → ((a : A) → P a → Safe I R (f a) w)
        → Safe I R (p >>= f) w
    Quiet-bind P R p f q next =
        Safe-bind I (λ a v. (v ≡ w) × P a) R p f w q
          λ a v _ here. subst (λ u. Safe I R (f a) u) (sym here.0) (next a here.1)
