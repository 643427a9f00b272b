-- ===== src/Storage/Shares.antt =====
-- storage/redis.go: the recording of shares and of the blocks that they found.
pub mod Log
pub mod Beside
pub mod Recorded
use not_only_mining_pool.Common.{
  ℕ, Bool, true, false, Option, none, some, List, [], ◌∷◌, ◌++◌, Bytes, Signed, plus, minus, codes,
  if◌then◌else◌,
}
use not_only_mining_pool.Common.Decimal.{format_int, parse_int}
use not_only_mining_pool.Common.Float.{Float64}
use not_only_mining_pool.Jobs.Share.{ShareError, Share}
use not_only_mining_pool.Storage.Types.{PendingBlock}
use not_only_mining_pool.Storage.Block.{colon, block_text}
use not_only_mining_pool.Storage.Redis.{
  FloatText, text_of, sadd, hincrby, hincrbyfloat, zadd, zremrangebyrank, incr, Command, on, rename,
  Redis, exec_all,
}
use not_only_mining_pool.Storage.Keys.{
  pool_miners, miner_rigs, shares_seq, pplns_log, round_current, round_at, valid_shares,
  invalid_shares, pool_counters, pool_shares, miner_hashes, rig_hashes, blocks_pending,
}

-- DB, without its connection and its queue, and with pplnsLogCap.
pub record Storage : Type 0 where
  pub coin : Bytes
  pub pps_mode : Bool
  pub log_cap : ℕ

-- SetPPSMode
unfoldable pub set_pps_mode : Bool → Storage → Storage
set_pps_mode pps s = record s { pps_mode = pps }

-- What INCR answers: it counts up from one.
unfoldable pub count_of : Signed → ℕ
count_of (plus n) = n
count_of (minus n) = 0

unfoldable pub incr_reply : Option Bytes → ℕ
incr_reply none = 0
incr_reply (some t) = count_of (parse_int t)

-- `miner:diff:seq`
unfoldable pub log_member : Bytes → Bytes → ℕ → Bytes
log_member miner diff seq = miner ++ (colon ∷ (diff ++ (colon ∷ format_int (plus seq))))

module _ {fl : Float64} (texts : FloatText fl) (s : Storage) where
  unfoldable pub index_writes : Share fl → List Command
  index_writes share =
      on (pool_miners s.coin) (sadd share.miner)
      ∷ on (miner_rigs s.coin share.miner) (sadd share.rig)
      ∷ []

  unfoldable pub log_writes : Share fl → ℕ → List Command
  log_writes share seq =
      on (pplns_log s.coin) (zadd seq (log_member share.miner (texts.format share.diff) seq))
      ∷ (if s.pps_mode
          then []
          else (on (pplns_log s.coin) (zremrangebyrank (minus s.log_cap)) ∷ []))

  unfoldable pub credit_writes : Share fl → ℕ → List Command
  credit_writes share now =
      on (round_current s.coin) (hincrbyfloat share.miner (texts.format share.diff))
      ∷ on (valid_shares s.coin) (hincrby share.miner)
      ∷ on (pool_counters s.coin) (hincrby (codes "validShares"))
      ∷ on (pool_shares s.coin) (zadd now (texts.format_5 share.diff))
      ∷ on (miner_hashes s.coin share.miner) (zadd now (texts.format_5 share.diff))
      ∷ on (rig_hashes s.coin share.miner share.rig) (zadd now (texts.format_5 share.diff))
      ∷ []

  unfoldable pub invalid_writes : Share fl → List Command
  invalid_writes share =
      on (invalid_shares s.coin) (hincrby share.miner)
      ∷ on (pool_counters s.coin) (hincrby (codes "invalidShares"))
      ∷ []

  unfoldable pub pending_block : Share fl → ℕ → PendingBlock
  pending_block share seq = record {
    hash = share.block_hash;
    tx_hash = share.tx_hash;
    height = share.block_height;
    finder = share.miner;
    mark = plus seq;
  }

  unfoldable pub block_writes : Share fl → Bool → ℕ → List Command
  block_writes share true seq =
      rename (round_current s.coin) (round_at s.coin (format_int (plus share.block_height)))
      ∷ on (blocks_pending s.coin) (sadd (block_text (pending_block share seq)))
      ∷ on (pool_counters s.coin) (hincrby (codes "validBlocks"))
      ∷ []
  block_writes share false seq = on (pool_counters s.coin) (hincrby (codes "invalidBlocks")) ∷ []

  -- A share without a block has no text of one.
  unfoldable pub found_writes : Bytes → Share fl → Bool → ℕ → List Command
  found_writes [] share accepted seq = []
  found_writes (b ∷ hex) share accepted seq = block_writes share accepted seq

  unfoldable pub valid_writes : Share fl → Bool → ℕ → ℕ → List Command
  valid_writes share accepted seq now =
      index_writes share
      ++ (log_writes share seq
          ++ (credit_writes share now ++ found_writes share.block_hex share accepted seq))

  module _ (redis : Redis) where
    -- putShareNow of a share at a time, where redis answers. The sequence number of a valid share is
    -- fetched before the pipeline is sent.
    unfoldable pub put_error : Option ShareError → Share fl → Bool → ℕ → redis.Db → redis.Db
    put_error none share accepted now db =
        let counted = redis.exec (on (shares_seq s.coin) incr) db in
        let seq = incr_reply (text_of (redis.value counted (shares_seq s.coin))) in
        exec_all redis (valid_writes share accepted seq now) counted
    put_error (some e) share accepted now db =
        exec_all redis
          (index_writes share
            ++ (invalid_writes share ++ found_writes share.block_hex share accepted 0))
          db

    unfoldable pub put_share_now : Share fl → Bool → ℕ → redis.Db → redis.Db
    put_share_now share accepted now db = put_error share.error share accepted now db

    -- shareWriter: the shares of the queue, in their order.
    unfoldable pub share_writer : List (Share fl × Bool × ℕ) → redis.Db → redis.Db
    share_writer [] db = db
    share_writer ((share, accepted, now) ∷ jobs) db =
        share_writer jobs (put_share_now share accepted now db)
