-- ===== src/Storage/Reads/Maps.antt =====
-- storage/redis.go: the maps that the reads make have each key once.
use not_only_mining_pool.Common.{
  ℕ, ◌≡◌, subst, Bool, true, false, some, List, [], ◌∷◌, Bytes, Option-cases, inl, inr,
  if◌then◌else◌, Signed,
}
use not_only_mining_pool.Common.Dict.{Dict, lookup, insert, Distinct, insert-Distinct}
use not_only_mining_pool.Common.Fallible.{>>=-eq-some}
use not_only_mining_pool.Common.Float.{Float64}
use not_only_mining_pool.Storage.Redis.{FloatText, Redis}
use not_only_mining_pool.Storage.Shares.{Storage}
use not_only_mining_pool.Storage.Reads.{
  share_of, add_at, window_loop, parse_loop, get_pplns_shares, get_round_contrib,
  get_all_miner_balances,
}

module _ {fl : Float64} (texts : FloatText fl) where
  open fl use {F, of_nat, add, lt, le}

  add_at-Distinct :
      (miner : Bytes) (diff : F) (out : Dict F)
      → Distinct out
      → Distinct (add_at texts miner diff out)
  unfolding add_at
  add_at-Distinct miner diff out d = elim (Option-cases (lookup miner out)) [
    | inl e ↦ rw (add_at, e) (insert-Distinct miner _ out d)
    | inr (sum, e) ↦ rw (add_at, e) (insert-Distinct miner _ out d)
  ]

  if-Distinct : (b : Bool) (l r : Dict F) → Distinct l → Distinct r → Distinct (if b then l else r)
  if-Distinct true l r p q = p
  if-Distinct false l r p q = q

  window_loop-Distinct :
      (window : F) (out : Dict F) (cum : F) (ms : List Bytes)
      → Distinct out
      → Distinct (window_loop texts window out cum ms)
  unfolding window_loop
  window_loop-Distinct window out cum [] d = d
  window_loop-Distinct window out cum (m ∷ ms) d = elim (Option-cases (share_of texts m)) [
    | inl e ↦ rw (window_loop, e) (window_loop-Distinct window out cum ms d)
    | inr ((miner, diff), e) ↦
        rw (window_loop, e)
          (if-Distinct _ (add_at texts miner diff out) _ (add_at-Distinct miner diff out d) (
            window_loop-Distinct window (add_at texts miner diff out) (add cum diff) ms
              (add_at-Distinct miner diff out d)))
  ]

  parse_loop-Distinct :
      (out : Dict F) (m : Dict Bytes) (r : Dict F)
      → Distinct out
      → parse_loop texts out m ≡ some r
      → Distinct r
  unfolding parse_loop
  parse_loop-Distinct out [] r d e = let same : out ≡ r = cc in subst Distinct same d
  parse_loop-Distinct out ((miner, text) ∷ m) r d e =
      let (x, _, e') = >>=-eq-some (texts.parse text) _ e in
      parse_loop-Distinct (insert miner x out) m r (insert-Distinct miner x out d) e'

  module _ (redis : Redis) (s : Storage) where
    pub get_pplns_shares-Distinct :
        (upto_seq : Signed) (window : F) (db : redis.Db)
        → Distinct (get_pplns_shares texts redis s upto_seq window db)
    unfolding get_pplns_shares
    get_pplns_shares-Distinct upto_seq window db = window_loop-Distinct window [] _ _ tt

  module _ (s : Storage) (hgetall : Bytes → Dict Bytes) where
    pub get_round_contrib-Distinct :
        (height : ℕ) (r : Dict F) → get_round_contrib texts s hgetall height ≡ some r → Distinct r
    unfolding get_round_contrib
    get_round_contrib-Distinct height r e = parse_loop-Distinct [] _ r tt e

    pub get_all_miner_balances-Distinct :
        (r : Dict F) → get_all_miner_balances texts s hgetall ≡ some r → Distinct r
    unfolding get_all_miner_balances
    get_all_miner_balances-Distinct r e = parse_loop-Distinct [] _ r tt e
