-- ===== src/Storage/Stats/Laws.antt =====
-- storage/redis.go: what the statistics give where they are asked for a time.
use not_only_mining_pool.Common.{
  ℕ, suc, zero, ◌+◌, ◌≤◌, ◌≡◌, refl, some, List, [], ◌∷◌, Bytes, Signed, plus, length, take, drop,
  arith, length-take,
}
use not_only_mining_pool.Common.Float.{Float64}
use not_only_mining_pool.Storage.Redis.{FloatText, entries, Redis}
use not_only_mining_pool.Storage.Keys.{pool_shares}
use not_only_mining_pool.Storage.Shares.{Storage}
use not_only_mining_pool.Storage.Stats.{
  rank, last_rank, zrange, sum_texts, hashrate, get_pool_hashrate,
}

drop-all : {A : Type 0} (n : ℕ) (xs : List A) → length xs ≤ n → drop n xs ≡ []
drop-all zero [] h = refl
drop-all zero (x ∷ xs) h = absurd (omega arith)
drop-all (suc n) [] h = refl
drop-all (suc n) (x ∷ xs) h = drop-all n xs (omega arith)

zrange-behind :
    (from to : ℕ) (l : List (Bytes × ℕ)) → length l ≤ from → zrange (plus from) (plus to) l ≡ []
unfolding zrange rank last_rank
zrange-behind from to l h =
    rw (drop-all from (take (to + 1) l) (omega (arith, length-take (to + 1) l))) refl

module _ (redis : Redis) (s : Storage) {fl : Float64} (texts : FloatText fl)
    (of_signed : Signed → fl.F) where
  -- GetPoolHashrate takes its bounds for ranks: where there are fewer entries than the first bound, which
  -- the API server makes of the time in seconds, the hash rate is that of no shares at all.
  pub get_pool_hashrate_of_times :
      (from to : ℕ) (span : Signed) (db : redis.Db)
      → length (entries (redis.value db (pool_shares s.coin))) ≤ from
      → get_pool_hashrate redis s texts of_signed (plus from) (plus to) span db
        ≡ some (fl.div (fl.of_nat 0) (of_signed span))
  unfolding get_pool_hashrate hashrate sum_texts
  get_pool_hashrate_of_times from to span db h =
      rw (zrange-behind from to (entries (redis.value db (pool_shares s.coin))) h) refl
