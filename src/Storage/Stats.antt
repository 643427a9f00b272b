-- ===== src/Storage/Stats.antt =====
-- storage/redis.go: the statistics of the pool, its miners and their rigs.
pub mod Laws
use not_only_mining_pool.Common.{
  ℕ, ◌+◌, ◌-◌, Bool, true, false, Option, none, some, List, [], ◌∷◌, Bytes, Signed, plus, minus,
  codes, if◌then◌else◌, ltb, length, take, drop, map,
}
use mathlib.Core.Option
use not_only_mining_pool.Common.Decimal.{Parsed, syntax_error, range_error, parsed, parse_uint}
use not_only_mining_pool.Common.Fallible.{◌>>=◌}
use not_only_mining_pool.Common.Float.{Float64}
use not_only_mining_pool.Storage.Redis.{FloatText, Value, field, entries, Redis}
use not_only_mining_pool.Storage.Keys.{
  pool_miners, miner_rigs, round_current, pool_counters, pool_shares, miner_shares, rig_hashes,
  shares_contrib,
}
use not_only_mining_pool.Storage.Shares.{Storage}

module _ (s : Storage) (smembers : Bytes → List Bytes) where
  -- GetMinerIndex
  unfoldable pub get_miner_index : List Bytes
  get_miner_index = smembers (pool_miners s.coin)

  -- GetRigIndex
  unfoldable pub get_rig_index : Bytes → List Bytes
  get_rig_index miner = smembers (miner_rigs s.coin miner)

unfoldable pub uint_of : Parsed → Option ℕ
uint_of syntax_error = none
uint_of range_error = none
uint_of (parsed n) = some n

-- ZRANGE by ranks, which are counted from the end where they are negative.
unfoldable pub rank : Signed → ℕ → ℕ
rank (plus n) len = n
rank (minus n) len = len - (n + 1)

-- How many entries there are up to the last rank.
unfoldable pub last_rank : Signed → ℕ → ℕ
last_rank (plus n) len = n + 1
last_rank (minus n) len = len - n

unfoldable pub zrange : Signed → Signed → List (Bytes × ℕ) → List Bytes
zrange from to l = map (λ e. e.0) (drop (rank from (length l)) (take (last_rank to (length l)) l))

module _ (redis : Redis) (s : Storage) where
  -- HGET and Uint64: a missing field is an error.
  unfoldable pub counter : Bytes → redis.Db → Option ℕ
  counter f db = field (redis.value db (pool_counters s.coin)) f >>= λ t. uint_of (parse_uint t)

  -- GetPoolTotalValidShares
  unfoldable pub get_pool_total_valid_shares : redis.Db → Option ℕ
  get_pool_total_valid_shares db = counter (codes "validShares") db

  -- GetPoolTotalValidBlocks
  unfoldable pub get_pool_total_valid_blocks : redis.Db → Option ℕ
  get_pool_total_valid_blocks db = counter (codes "validBlocks") db

  -- GetPoolTotalInvalidShares
  unfoldable pub get_pool_total_invalid_shares : redis.Db → Option ℕ
  get_pool_total_invalid_shares db = counter (codes "validShares") db

  -- GetPoolTotalInvalidBlocks
  unfoldable pub get_pool_total_invalid_blocks : redis.Db → Option ℕ
  get_pool_total_invalid_blocks db = counter (codes "invalidBlocks") db

  module _ {fl : Float64} (texts : FloatText fl) (of_signed : Signed → fl.F) where
    open fl use {F, of_nat, add, div}

    unfoldable pub get_float : Bytes → Bytes → redis.Db → Option F
    get_float key f db = field (redis.value db key) f >>= texts.parse

    -- GetMinerCurrentRoundContrib
    unfoldable pub get_miner_current_round_contrib : Bytes → redis.Db → Option F
    get_miner_current_round_contrib miner db = get_float (round_current s.coin) miner db

    -- GetMinerRigs
    unfoldable pub get_miner_rigs : Bytes → redis.Db → Option F
    get_miner_rigs miner db = get_float (shares_contrib s.coin) miner db

    -- The loop over the difficulties of a slice, from a sum on.
    unfoldable pub sum_texts : F → List Bytes → Option F
    sum_texts total [] = some total
    sum_texts total (t ∷ ts) = texts.parse t >>= λ diff. sum_texts (add total diff) ts

    -- The three hash rates, of the entries of a key between two ranks; `span` is `to - from`, an int64.
    unfoldable pub hashrate : Bytes → Signed → Signed → Signed → redis.Db → Option F
    hashrate key from to span db =
        Option.map (λ total. div total (of_signed span))
          (sum_texts (of_nat 0) (zrange from to (entries (redis.value db key))))

    -- GetRigHashrate
    unfoldable pub get_rig_hashrate : Bytes → Bytes → Signed → Signed → Signed → redis.Db → Option F
    get_rig_hashrate miner rig from to span db =
        hashrate (rig_hashes s.coin miner rig) from to span db

    -- GetMinerHashrate
    unfoldable pub get_miner_hashrate : Bytes → Signed → Signed → Signed → redis.Db → Option F
    get_miner_hashrate miner from to span db = hashrate (miner_shares s.coin miner) from to span db

    -- GetPoolHashrate
    unfoldable pub get_pool_hashrate : Signed → Signed → Signed → redis.Db → Option F
    get_pool_hashrate from to span db = hashrate (pool_shares s.coin) from to span db
