-- ===== src/Storage/Reads.antt =====
-- storage/redis.go: what the payer reads of shares, rounds, balances and blocks.
pub mod Maps
pub mod Members
pub mod Window
use not_only_mining_pool.Common.{
  ℕ, ◌≤◌, Bool, true, false, Option, none, some, List, [], ◌∷◌, ◌++◌, Bytes, Signed, plus, minus,
  if◌then◌else◌, ltb, leb, map, reverse, not, ◌&&◌,
}
use mathlib.Core.Option
use not_only_mining_pool.Common.Dict.{Dict, lookup, insert}
use not_only_mining_pool.Common.Fallible.{◌>>=◌}
use not_only_mining_pool.Common.Decimal.{format_uint, format_int, parse_int64}
use not_only_mining_pool.Common.Parts.{split_n}
use not_only_mining_pool.Common.Float.{Float64}
use not_only_mining_pool.Storage.Types.{PendingBlock}
use not_only_mining_pool.Storage.Block.{colon, new_pending_block_from_string}
use not_only_mining_pool.Storage.Redis.{FloatText, entries, text_of, above, Redis}
use not_only_mining_pool.Storage.Keys.{
  pplns_log, round_at, balances_key, blocks_pending, cursor_key,
}
use not_only_mining_pool.Storage.Shares.{Storage}

-- The entries with a score up to a number.
unfoldable pub at_most : ℕ → List (Bytes × ℕ) → List (Bytes × ℕ)
at_most n [] = []
at_most n ((y, m) ∷ l) = let rest = at_most n l in if leb m n then (y, m) ∷ rest else rest

unfoldable pub up_to : Signed → List (Bytes × ℕ) → List (Bytes × ℕ)
up_to (plus n) l = at_most n l
up_to (minus n) l = []

module _ {fl : Float64} (texts : FloatText fl) where
  open fl use {F, of_nat, add, lt, le}

  -- Miner and difficulty of an entry of the log; others are skipped.
  unfoldable pub share_of_parts : List Bytes → Option (Bytes × F)
  share_of_parts [] = none
  share_of_parts (a ∷ []) = none
  share_of_parts (miner ∷ diff ∷ rest) = Option.map (λ d. (miner, d)) (texts.parse diff)

  unfoldable pub share_of : Bytes → Option (Bytes × F)
  share_of m = share_of_parts (split_n 2 colon m)

  -- `out[miner] += diff`
  unfoldable pub add_at : Bytes → F → Dict F → Dict F
  add_at miner diff out = elim (lookup miner out) [
    | none ↦ insert miner (add (of_nat 0) diff) out
    | some sum ↦ insert miner (add sum diff) out
  ]

  -- The loop of GetPPLNSShares: it stops where the window is reached.
  unfoldable pub window_loop : F → Dict F → F → List Bytes → Dict F
  window_loop window out cum [] = out
  window_loop window out cum (m ∷ ms) = elim (share_of m) [
    | none ↦ window_loop window out cum ms
    | some (miner, diff) ↦
        let out' = add_at miner diff out in
        let cum' = add cum diff in
        let rest = window_loop window out' cum' ms in
        if lt (of_nat 0) window && le window cum' then out' else rest
  ]

  -- The loop of GetSharesSince.
  unfoldable pub since_loop : Dict F → ℕ → List (Bytes × ℕ) → Dict F × ℕ
  since_loop out max_seq [] = (out, max_seq)
  since_loop out max_seq ((m, score) ∷ zs) = elim (share_of m) [
    | none ↦ since_loop out max_seq zs
    | some (miner, diff) ↦
        since_loop (add_at miner diff out) (if ltb max_seq score then score else max_seq) zs
  ]

  -- The loop of GetAllMinerBalances and GetRoundContrib: `none` is an error of ParseFloat.
  unfoldable pub parse_loop : Dict F → Dict Bytes → Option (Dict F)
  parse_loop out [] = some out
  parse_loop out ((miner, text) ∷ m) = texts.parse text >>= λ x. parse_loop (insert miner x out) m

  module _ (redis : Redis) (s : Storage) where
    -- GetPPLNSShares: ZREVRANGEBYSCORE lists the newest first.
    unfoldable pub get_pplns_shares : Signed → F → redis.Db → Dict F
    get_pplns_shares upto_seq window db =
        window_loop window [] (of_nat 0)
          (map (λ e. e.0) (reverse (up_to upto_seq (entries (redis.value db (pplns_log s.coin))))))

    -- GetSharesSince
    unfoldable pub get_shares_since : ℕ → redis.Db → Dict F × ℕ
    get_shares_since cursor db =
        since_loop [] cursor (above cursor (entries (redis.value db (pplns_log s.coin))))

  -- What HGETALL and SMEMBERS answer at a key is an argument.
  module _ (s : Storage) (hgetall : Bytes → Dict Bytes) where
    -- GetRoundContrib
    unfoldable pub get_round_contrib : ℕ → Option (Dict F)
    get_round_contrib height = parse_loop [] (hgetall (round_at s.coin (format_uint height)))

    -- GetAllMinerBalances
    unfoldable pub get_all_miner_balances : Option (Dict F)
    get_all_miner_balances = parse_loop [] (hgetall (balances_key s.coin))

unfoldable pub parse_blocks : List Bytes → Option (List PendingBlock)
parse_blocks [] = some []
parse_blocks (str ∷ strs) = new_pending_block_from_string str >>= λ block.
    parse_blocks strs >>= λ blocks. some (block ∷ blocks)

-- GetAllPendingBlocks
unfoldable pub get_all_pending_blocks : Storage → (Bytes → List Bytes) → Option (List PendingBlock)
get_all_pending_blocks s smembers = parse_blocks (smembers (blocks_pending s.coin))

-- GetPPSCursor: zero if there is none, and an error if it is no int64.
unfoldable pub cursor_of : Option Bytes → Option Signed
cursor_of none = some (plus 0)
cursor_of (some t) = parse_int64 t

module _ (redis : Redis) (s : Storage) where
  unfoldable pub get_pps_cursor : redis.Db → Option Signed
  get_pps_cursor db = cursor_of (text_of (redis.value db (cursor_key s.coin)))
