-- ===== src/Storage/Keys.antt =====
-- storage/redis.go: the keys of the database, which begin with the name of the coin.
use not_only_mining_pool.Common.{◌≡◌, refl, false, ◌++◌, Bytes, [], ◌∷◌, codes, arith}
use not_only_mining_pool.Common.Texts.{text_eq}

module _ (coin : Bytes) where
  abbrev pub pool_miners : Bytes
  pool_miners = coin ++ codes ":pool:miners"

  abbrev pub miner_rigs : Bytes → Bytes
  miner_rigs miner = coin ++ (codes ":miner:" ++ (miner ++ codes ":rigs"))

  abbrev pub shares_seq : Bytes
  shares_seq = coin ++ codes ":shares:seq"

  abbrev pub pplns_log : Bytes
  pplns_log = coin ++ codes ":shares:pplnslog"

  abbrev pub round_current : Bytes
  round_current = coin ++ codes ":shares:roundCurrent"

  abbrev pub round_at : Bytes → Bytes
  round_at height = coin ++ (codes ":shares:round" ++ height)

  abbrev pub valid_shares : Bytes
  valid_shares = coin ++ codes ":miners:validShares"

  abbrev pub invalid_shares : Bytes
  invalid_shares = coin ++ codes ":miners:invalidShares"

  abbrev pub pool_counters : Bytes
  pool_counters = coin ++ codes ":pool"

  abbrev pub pool_shares : Bytes
  pool_shares = coin ++ codes ":pool:shares"

  abbrev pub miner_hashes : Bytes → Bytes
  miner_hashes miner = coin ++ (codes ":miner:" ++ (miner ++ codes ":hashes"))

  abbrev pub miner_shares : Bytes → Bytes
  miner_shares miner = coin ++ (codes ":miner:" ++ (miner ++ codes ":shares"))

  abbrev pub rig_hashes : Bytes → Bytes → Bytes
  rig_hashes miner rig =
      coin ++ (codes ":miner:" ++ (miner ++ (codes ":rig:" ++ (rig ++ codes ":hashes"))))

  abbrev pub blocks_pending : Bytes
  blocks_pending = coin ++ codes ":blocks:pending"

  abbrev pub blocks_confirmed : Bytes
  blocks_confirmed = coin ++ codes ":blocks:confirmed"

  abbrev pub blocks_orphaned : Bytes
  blocks_orphaned = coin ++ codes ":blocks:orphaned"

  abbrev pub shares_contrib : Bytes
  shares_contrib = coin ++ codes ":shares:contrib"

  abbrev pub balances_key : Bytes
  balances_key = coin ++ codes ":balances"

  abbrev pub payouts_key : Bytes
  payouts_key = coin ++ codes ":payouts"

  abbrev pub intent_key : Bytes
  intent_key = coin ++ codes ":payouts:intent"

  abbrev pub cursor_key : Bytes
  cursor_key = coin ++ codes ":pps:cursor"

-- Keys of one coin differ where their ends do.
pub text_eq-prefix : (c s t : Bytes) → text_eq (c ++ s) (c ++ t) ≡ text_eq s t
unfolding text_eq
text_eq-prefix [] s t = refl
text_eq-prefix (x ∷ c) s t = ground (arith, text_eq-prefix c s t)

pub apart : (c s t : Bytes) → text_eq s t ≡ false → text_eq (c ++ s) (c ++ t) ≡ false
apart c s t e = rw (text_eq-prefix c s t) e

test_apart : (c m : Bytes) → text_eq (blocks_pending c) (miner_rigs c m) ≡ false
unfolding text_eq
test_apart c m = apart c _ _ refl
