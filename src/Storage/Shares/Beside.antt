-- ===== src/Storage/Shares/Beside.antt =====
-- storage/redis.go, putShareNow: the keys that its commands name beside the counter and the log.
use not_only_mining_pool.Common.{ℕ, ◌≡◌, refl, Bool, true, false, [], ◌∷◌, ◌++◌, Bytes, All}
use not_only_mining_pool.Common.Texts.{text_eq}
use not_only_mining_pool.Common.Float.{Float64}
use not_only_mining_pool.Jobs.Share.{Share}
use not_only_mining_pool.Storage.Redis.{FloatText}
use not_only_mining_pool.Storage.Redis.After.{Misses}
use not_only_mining_pool.Storage.Keys.{
  apart, pool_miners, miner_rigs, shares_seq, pplns_log, round_current, round_at, valid_shares,
  invalid_shares, pool_counters, pool_shares, miner_hashes, rig_hashes, blocks_pending,
}
use not_only_mining_pool.Storage.Shares.{
  Storage, index_writes, credit_writes, invalid_writes, block_writes, found_writes,
}
use not_only_mining_pool.Storage.Payouts.Paid.{All-append}

module _ {fl : Float64} (texts : FloatText fl) (s : Storage) where
  -- A key that putShareNow names, if at all, only for the counter and the log.
  pub record Beside (j : Bytes) : Type 0 where
    pub miners : text_eq (pool_miners s.coin) j ≡ false
    pub rigs : (m : Bytes) → text_eq (miner_rigs s.coin m) j ≡ false
    pub current : text_eq (round_current s.coin) j ≡ false
    pub round : (h : Bytes) → text_eq (round_at s.coin h) j ≡ false
    pub valid : text_eq (valid_shares s.coin) j ≡ false
    pub invalid : text_eq (invalid_shares s.coin) j ≡ false
    pub counters : text_eq (pool_counters s.coin) j ≡ false
    pub pool : text_eq (pool_shares s.coin) j ≡ false
    pub hashes : (m : Bytes) → text_eq (miner_hashes s.coin m) j ≡ false
    pub rig : (m r : Bytes) → text_eq (rig_hashes s.coin m r) j ≡ false
    pub pending : text_eq (blocks_pending s.coin) j ≡ false

  pub log-Beside : Beside (pplns_log s.coin)
  unfolding text_eq
  log-Beside = record {
    miners = apart s.coin _ _ refl;
    rigs = λ m. apart s.coin _ _ refl;
    current = apart s.coin _ _ refl;
    round = λ h. apart s.coin _ _ refl;
    valid = apart s.coin _ _ refl;
    invalid = apart s.coin _ _ refl;
    counters = apart s.coin _ _ refl;
    pool = apart s.coin _ _ refl;
    hashes = λ m. apart s.coin _ _ refl;
    rig = λ m r. apart s.coin _ _ refl;
    pending = apart s.coin _ _ refl;
  }

  pub seq-Beside : Beside (shares_seq s.coin)
  unfolding text_eq
  seq-Beside = record {
    miners = apart s.coin _ _ refl;
    rigs = λ m. apart s.coin _ _ refl;
    current = apart s.coin _ _ refl;
    round = λ h. apart s.coin _ _ refl;
    valid = apart s.coin _ _ refl;
    invalid = apart s.coin _ _ refl;
    counters = apart s.coin _ _ refl;
    pool = apart s.coin _ _ refl;
    hashes = λ m. apart s.coin _ _ refl;
    rig = λ m r. apart s.coin _ _ refl;
    pending = apart s.coin _ _ refl;
  }

  pub index_writes-Misses :
      (j : Bytes) (share : Share fl) → Beside j → All (Misses j) (index_writes texts s share)
  unfolding index_writes
  index_writes-Misses j share b = (b.miners, (b.rigs share.miner, tt))

  pub credit_writes-Misses :
      (j : Bytes) (share : Share fl) (now : ℕ)
      → Beside j
      → All (Misses j) (credit_writes texts s share now)
  unfolding credit_writes
  credit_writes-Misses j share now b = (
    b.current,
    (b.valid, (b.counters, (b.pool, (b.hashes share.miner, (b.rig share.miner share.rig, tt))))),
  )

  pub invalid_writes-Misses :
      (j : Bytes) (share : Share fl) → Beside j → All (Misses j) (invalid_writes texts s share)
  unfolding invalid_writes
  invalid_writes-Misses j share b = (b.invalid, (b.counters, tt))

  pub found_writes-Misses :
      (j hex : Bytes) (share : Share fl) (accepted : Bool) (seq : ℕ)
      → Beside j
      → All (Misses j) (found_writes texts s hex share accepted seq)
  unfolding found_writes block_writes
  found_writes-Misses j [] share accepted seq b = tt
  found_writes-Misses j (x ∷ hex) share true seq b =
      ((b.current, b.round _), (b.pending, (b.counters, tt)))
  found_writes-Misses j (x ∷ hex) share false seq b = (b.counters, tt)

  pub refused-Misses :
      (j : Bytes) (share : Share fl) (accepted : Bool)
      → Beside j
      → All (Misses j) (
          index_writes texts s share
          ++ (invalid_writes texts s share
              ++ found_writes texts s share.block_hex share accepted 0))
  refused-Misses j share accepted b =
      All-append _ (index_writes texts s share) _ (index_writes-Misses j share b) (
        All-append _ (invalid_writes texts s share) _ (invalid_writes-Misses j share b)
          (found_writes-Misses j share.block_hex share accepted 0 b))

  pub tail-Misses :
      (j : Bytes) (share : Share fl) (accepted : Bool) (seq now : ℕ)
      → Beside j
      → All (Misses j) (
          credit_writes texts s share now
          ++ found_writes texts s share.block_hex share accepted seq)
  tail-Misses j share accepted seq now b =
      All-append _ (credit_writes texts s share now) _ (credit_writes-Misses j share now b)
        (found_writes-Misses j share.block_hex share accepted seq b)
