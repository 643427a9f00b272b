-- ===== src/Storage/Types.antt =====
-- storage/block.go and storage/redis.go: the records that the database and the payer exchange.
use not_only_mining_pool.Common.{ℕ, List, Bytes, Signed}
use not_only_mining_pool.Common.Dict.{Dict}
use not_only_mining_pool.Common.Float.{Float64}

pub record PendingBlock : Type 0 where
  pub hash : Bytes
  pub tx_hash : Bytes
  pub height : ℕ
  pub finder : Bytes
  pub mark : Signed

module _ (fl : Float64) where
  pub record PaymentUpdate : Type 0 where
    pub balances : Dict fl.F
    pub paid : Dict fl.F
    pub confirmed : List Bytes
    pub orphaned : List Bytes
    pub delete_rounds : List ℕ
    pub pps_cursor : ℕ
