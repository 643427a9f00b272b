-- ===== src/Payments/Confirms.antt =====
-- payments/payer.go, the end of processPayments: what becomes of the blocks that have matured.
use not_only_mining_pool.Common.{◌≡◌, ◌⊎◌, List, ◌∷◌, ◌++◌, Bytes, Option, none, some, map}
use not_only_mining_pool.Common.Dict.{Dict}
use not_only_mining_pool.Common.Float.{Float64}
use not_only_mining_pool.Storage.Types.{PaymentUpdate, PendingBlock}
use not_only_mining_pool.Storage.Block.{block_text}
use not_only_mining_pool.Payments.Prog.{Prog}
use not_only_mining_pool.Payments.Split.{PaymentManager}
use not_only_mining_pool.Payments.Settle.{Cache}
use not_only_mining_pool.Payments.World.{World}
use not_only_mining_pool.Payments.Chosen.{Chosen}

module _ {fl : Float64} (pm : PaymentManager fl) where
  module _ (w : World fl) (C : PaymentUpdate fl → Type 0) where
    abbrev pub Promises : Option (PaymentUpdate fl × Bytes) → Type 0
    Promises none = Unit {0}
    Promises (some (u, txid)) = C u

    -- One more update is recorded, and it is such an update.
    abbrev pub Recorded : World fl → Type 0
    Recorded x = (u : PaymentUpdate fl) × C u × (x.applied ≡ u ∷ w.applied)

    -- Only such an update is recorded, once at most, and an intent is the one from before or of such an update.
    abbrev pub Only : World fl → Type 0
    Only x = ((x.applied ≡ w.applied) ⊎ Recorded x) × ((x.intent ≡ w.intent) ⊎ Promises x.intent)

    abbrev Before : World fl → Type 0
    Before x = (x.applied ≡ w.applied) × ((x.intent ≡ w.intent) ⊎ Promises x.intent)

    abbrev Ready : PaymentUpdate fl × Cache → World fl → Type 0
    Ready out x = C out.0 × Before x

  -- An update that confirms blocks beside another's, deletes their rounds and has its orphans.
  abbrev pub Confirms : PaymentUpdate fl → List PendingBlock → PaymentUpdate fl → Type 0
  Confirms old blocks u =
      (u.confirmed ≡ old.confirmed ++ map block_text blocks)
      × (u.delete_rounds ≡ old.delete_rounds ++ map (λ b. b.height) blocks)
      × (u.orphaned ≡ old.orphaned)
