-- ===== src/Storage/Reads/Members.antt =====
-- storage/redis.go: the entries `miner:diff:seq` of the share log, written by putShareNow and read by
-- GetPPLNSShares and GetSharesSince.
use not_only_mining_pool.Common.{ℕ, ◌≡◌, refl, some, ◌∷◌, ◌++◌, Bytes, append_assoc, plus}
use not_only_mining_pool.Common.Parts.{split_n, Without, split_n-first}
use not_only_mining_pool.Common.Decimal.{format_int}
use not_only_mining_pool.Common.Float.{Float64}
use not_only_mining_pool.Storage.Block.{colon}
use not_only_mining_pool.Storage.Redis.{FloatText}
use not_only_mining_pool.Storage.Shares.{log_member}
use not_only_mining_pool.Storage.Reads.{share_of_parts, share_of}

module _ {fl : Float64} (texts : FloatText fl) where
  open fl use {F}

  -- The first two parts of a text are a miner and a difficulty, whatever stands behind them.
  share_of-parts :
      (miner diff rest : Bytes) (x : F)
      → Without colon miner
      → Without colon diff
      → texts.parse diff ≡ some x
      → share_of texts (miner ++ (colon ∷ (diff ++ (colon ∷ rest)))) ≡ some (miner, x)
  unfolding share_of share_of_parts split_n
  share_of-parts miner diff rest x m d e =
      rw
        (
          split_n-first 1 colon miner (diff ++ (colon ∷ rest)) m,
          split_n-first 0 colon diff rest d,
          e,
        )
        refl

  -- The share of a miner whose name has no colon is read back from its entry, if the text of its difficulty
  -- has none and is read back.
  pub share_of-log_member :
      (miner : Bytes) (diff : F) (seq : ℕ)
      → Without colon miner
      → Without colon (texts.format diff)
      → texts.parse (texts.format diff) ≡ some diff
      → share_of texts (log_member miner (texts.format diff) seq) ≡ some (miner, diff)
  unfolding log_member
  share_of-log_member miner diff seq m d e = share_of-parts miner (texts.format diff) _ diff m d e

  -- A miner chooses the difficulty that its shares are paid for: under a name of two parts, an account and
  -- a number, every share is read back as one of that account with that number as its difficulty,
  -- whatever its difficulty is.
  pub forged_difficulty :
      (account number : Bytes) (forged diff : F) (seq : ℕ)
      → Without colon account
      → Without colon number
      → texts.parse number ≡ some forged
      → share_of texts (log_member (account ++ (colon ∷ number)) (texts.format diff) seq)
        ≡ some (account, forged)
  unfolding log_member
  forged_difficulty account number forged diff seq a n e = rw (append_assoc) (
      share_of-parts account number (texts.format diff ++ (colon ∷ format_int (plus seq))) forged a
        n e)
