-- ===== src/Payments/Ledger.antt =====
-- What the wallet has sent to an address against what redis has recorded as paid to it.
use not_only_mining_pool.Common.{
  ◌≡◌, refl, subst, ◌∙◌, sym, ◌⊎◌, inl, inr, Bool, false, List, [], ◌∷◌, Bytes, Option, none, some,
  ◌||◌, ◌&&◌, if◌then◌else◌, ltb, text_eq, text_eq_iff, arith, Bool-cases,
}
use not_only_mining_pool.Common.Dict.{Dict, lookup, insert, delete, lookup-insert, lookup-delete}
use not_only_mining_pool.Common.Float.{Float64}
use not_only_mining_pool.Storage.Types.{PaymentUpdate}
use not_only_mining_pool.Payments.Split.{PaymentManager, sat_to_coin, sub64}
use not_only_mining_pool.Payments.Settle.{Worker, record_amounts, owed}
use not_only_mining_pool.Payments.World.{World}

module _ {ℓ} {A : Type ℓ} where
  abbrev pub opt_cons : Option A → List A → List A
  opt_cons none l = l
  opt_cons (some a) l = a ∷ l

  -- The amounts that were broadcast to an address, newest first.
  unfoldable pub history : Bytes → List (Dict A) → List A
  history a [] = []
  history a (m ∷ ms) = opt_cons (lookup a m) (history a ms)

module _ {fl : Float64} where
  open fl use {F}

  -- The amounts that ApplyPayments has recorded as paid to it, newest first.
  unfoldable pub recorded : Bytes → List (PaymentUpdate fl) → List F
  recorded a [] = []
  recorded a (u ∷ us) = opt_cons (lookup a u.paid) (recorded a us)

  -- All that was sent is recorded, and nothing else.
  abbrev pub Balanced : World fl → Type 0
  Balanced w = (a : Bytes) → history a w.sent ≡ recorded a w.applied

  -- It will be, once `u` is applied.
  abbrev pub Owes : PaymentUpdate fl → World fl → Type 0
  Owes u w = (a : Bytes) → history a w.sent ≡ opt_cons (lookup a u.paid) (recorded a w.applied)

  -- The books of a world with a given intent: without one they are balanced; with one that has a
  -- transaction id, they lack just its update; with one that has none, they are balanced or lack it.
  abbrev pub BooksWith : Option (PaymentUpdate fl × Bytes) → World fl → Type 0
  BooksWith none w = Balanced w
  BooksWith (some (u, [])) w = Balanced w ⊎ Owes u w
  BooksWith (some (u, b ∷ txid)) w = Owes u w

  abbrev pub Books : World fl → Type 0
  Books w = BooksWith w.intent w

  -- No intent, or one that was not broadcast.
  abbrev pub Unsent : Option (PaymentUpdate fl × Bytes) → Type 0
  Unsent none = Unit {0}
  Unsent (some (u, [])) = Unit {0}
  Unsent (some (u, b ∷ txid)) = ⊥

  pub Unsent-Books : (w : World fl) → Unsent w.intent → Balanced w → Books w
  Unsent-Books w s b = go w.intent s
    where
      go : (i : Option (PaymentUpdate fl × Bytes)) → Unsent i → BooksWith i w
      go none s = b
      go (some (u, [])) s = inl b
      go (some (u, c ∷ txid)) s = elim s [ ]

  pub Owes-Books :
      (w : World fl) (u : PaymentUpdate fl) (txid : Bytes)
      → w.intent ≡ some (u, txid)
      → Owes u w
      → Books w
  Owes-Books w u txid e o = subst (λ i. BooksWith i w) (sym e) (go txid)
    where
      go : (t : Bytes) → BooksWith (some (u, t)) w
      go [] = inr o
      go (b ∷ t) = o

-- Whether an address is among those of the workers.
unfoldable pub has : Bytes → List Worker → Bool
has a [] = false
has a (w ∷ ws) = text_eq w.address a || has a ws

-- No two workers have one address.
abbrev pub Apart : List Worker → Type 0
Apart [] = Unit {0}
Apart (w ∷ ws) = (has w.address ws ≡ false) × Apart ws

-- An update pays nobody but the workers.
module _ {fl : Float64} where
  abbrev pub PaysOnly : List Worker → PaymentUpdate fl → Type 0
  PaysOnly ws u = (a : Bytes) → has a ws ≡ false → lookup a u.paid ≡ none

module _ {fl : Float64} (pm : PaymentManager fl) where
  open fl use {F}

  -- What the workers' `Sent` fields say is sent to an address.
  unfoldable pub planned : Bytes → List Worker → Option F
  planned a [] = none
  planned a (w ∷ ws) =
      if text_eq w.address a && ltb 0 w.sent then some (sat_to_coin fl pm w.sent) else planned a ws

  pub planned-none : (a : Bytes) (ws : List Worker) → has a ws ≡ false → planned a ws ≡ none
  unfolding planned has
  planned-none a [] h = refl
  planned-none a (w ∷ ws) h = ground (arith, planned-none a ws)

  paid-record_amounts :
      (a : Bytes) (ws : List Worker) (u : PaymentUpdate fl)
      → Apart ws
      → lookup a (record_amounts pm ws u).paid
        ≡ (if has a ws then planned a ws else lookup a u.paid)
  unfolding record_amounts has planned
  paid-record_amounts a [] u d = refl
  paid-record_amounts a (w ∷ ws) u d =
      paid-record_amounts a ws u1 d.1
      ∙ ground (
        arith,
        text_eq_iff w.address a,
        lookup-insert w.address a (sat_to_coin fl pm w.sent) u.paid,
        lookup-delete w.address a u.paid,
        planned-none a ws,
      )
    where
      u1 : PaymentUpdate fl
      u1 = record u {
        balances = insert w.address (sat_to_coin fl pm (sub64 (owed pm w) w.sent)) u.balances;
        paid =
            if ltb 0 w.sent
            then insert w.address (sat_to_coin fl pm w.sent) u.paid
            else delete w.address u.paid;
      }

  -- The payouts that settle records are what the workers are sent.
  pub paid-planned :
      (a : Bytes) (ws : List Worker) (u : PaymentUpdate fl)
      → Apart ws
      → PaysOnly ws u
      → lookup a (record_amounts pm ws u).paid ≡ planned a ws
  paid-planned a ws u d only = paid-record_amounts a ws u d ∙ (elim (Bool-cases (has a ws)) [
    | inl e ↦ rw e
    | inr e ↦ rw e (only a e ∙ sym (planned-none a ws e))
  ])
