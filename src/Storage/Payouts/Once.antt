-- ===== src/Storage/Payouts/Once.antt =====
-- storage/redis.go, GetSharesSince and ApplyPayments in the pps mode: which shares the next run reads.
use not_only_mining_pool.Common.{ℕ, ◌≢◌, none, List, Bytes, All}
use not_only_mining_pool.Common.Dict.{Dict}
use not_only_mining_pool.Common.Float.{Float64}
use not_only_mining_pool.Jobs.Share.{Share}
use not_only_mining_pool.Storage.Redis.{FloatText, Redis}
use not_only_mining_pool.Storage.Shares.{Storage}
use not_only_mining_pool.Storage.Reads.{share_of}

module _ {fl : Float64} (texts : FloatText fl) where
  open fl use {F}

  -- The entries that GetSharesSince does not skip.
  abbrev pub Readable : List (Bytes × ℕ) → Type 0
  Readable = All (λ e. share_of texts e.0 ≢ none)
