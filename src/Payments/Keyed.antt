-- ===== src/Payments/Keyed.antt =====
-- payments/payer.go: the payer's map of workers and their addresses.
use not_only_mining_pool.Common.{
  ℕ, ◌≡◌, refl, inl, inr, false, [], ◌∷◌, Bytes, none, some, text_eq_iff, arith, Option-cases,
}
use not_only_mining_pool.Common.Dict.{Dict, lookup, insert, lookup-insert}
use not_only_mining_pool.Common.Float.{Float64}
use not_only_mining_pool.Payments.Split.{PaymentManager, coin_to_sat}
use not_only_mining_pool.Payments.Settle.{Worker}
use not_only_mining_pool.Payments.Run.{credit, credit_all, workers_of, credit_shares, seed_workers}
use not_only_mining_pool.Common.Dict.{Distinct}
use not_only_mining_pool.Payments.Ledger.{has, Apart}

-- Each worker of the map stands under its own address, and no address stands twice.
abbrev pub Keyed : Dict Worker → Type 0
Keyed [] = Unit {0}
Keyed ((k, w) ∷ m) = (w.address ≡ k) × (lookup k m ≡ none) × Keyed m

pub has-lookup :
    (a : Bytes) (m : Dict Worker) → Keyed m → lookup a m ≡ none → has a (workers_of m) ≡ false
unfolding has lookup
has-lookup a [] k h = refl
has-lookup a ((j, w) ∷ m) k h = ground (arith, k.0, has-lookup a m k.2)

pub Keyed-Apart : (m : Dict Worker) → Keyed m → Apart (workers_of m)
Keyed-Apart [] k = tt
Keyed-Apart ((j, w) ∷ m) k = (rw k.0 (has-lookup j m k.2 k.1), Keyed-Apart m k.2)

pub insert-Keyed :
    (a : Bytes) (w : Worker) (m : Dict Worker) → w.address ≡ a → Keyed m → Keyed (insert a w m)
unfolding insert lookup
insert-Keyed a w [] e k = (e, refl, tt)
insert-Keyed a w ((j, x) ∷ m) e k =
    ground
      (arith, text_eq_iff j a, text_eq_iff a j, lookup-insert a j w m, insert-Keyed a w m e k.2)

-- Where a map's value is found, its address is the key.
address-lookup :
    (a : Bytes) (m : Dict Worker) (w : Worker) → Keyed m → lookup a m ≡ some w → w.address ≡ a
unfolding lookup
address-lookup a [] w k e = cc
address-lookup a ((j, x) ∷ m) w k e = ground (arith, text_eq_iff j a, k.0, address-lookup a m w k.2)

pub credit-Keyed : (a : Bytes) (r : ℕ) (m : Dict Worker) → Keyed m → Keyed (credit a r m)
unfolding credit
credit-Keyed a r m k = elim (Option-cases (lookup a m)) [
  | inl e ↦ rw (e, credit) (insert-Keyed a _ m refl k)
  | inr (w, e) ↦ rw (e, credit) (insert-Keyed a _ m (address-lookup a m w k e) k)
]

pub credit_all-Keyed : (dist : Dict ℕ) (m : Dict Worker) → Keyed m → Keyed (credit_all dist m)
unfolding credit_all
credit_all-Keyed [] m k = k
credit_all-Keyed ((a, r) ∷ dist) m k = credit_all-Keyed dist _ (credit-Keyed a r m k)

module _ {fl : Float64} (pm : PaymentManager fl) where
  open fl use {F}

  pub credit_shares-Keyed :
      (shares : Dict F) (m : Dict Worker) → Keyed m → Keyed (credit_shares pm shares m)
  unfolding credit_shares
  credit_shares-Keyed [] m k = k
  credit_shares-Keyed ((a, diff) ∷ shares) m k =
      credit_shares-Keyed shares _
        (credit-Keyed a (coin_to_sat fl pm (fl.mul diff pm.pps_rate)) m k)

  lookup-seed_workers :
      (a : Bytes) (bals : Dict F) → lookup a bals ≡ none → lookup a (seed_workers pm bals) ≡ none
  unfolding lookup seed_workers
  lookup-seed_workers a [] h = refl
  lookup-seed_workers a ((j, b) ∷ bals) h = ground (arith, lookup-seed_workers a bals)

  pub seed_workers-Keyed : (bals : Dict F) → Distinct bals → Keyed (seed_workers pm bals)
  unfolding seed_workers
  seed_workers-Keyed [] d = tt
  seed_workers-Keyed ((j, b) ∷ bals) d =
      (refl, lookup-seed_workers j bals d.0, seed_workers-Keyed bals d.1)
