-- ===== src/Storage/Reads/Window.antt =====
-- storage/redis.go, GetPPLNSShares: the window of the newest shares.
use not_only_mining_pool.Common.{
  ◌≡◌, refl, ap, ◌∙◌, ◌⊎◌, inl, inr, Bool, true, false, ◌&&◌, none, some, List, [], ◌∷◌, ◌++◌,
  Bytes, Signed, map, reverse, if◌then◌else◌, Option-cases, Bool-cases,
}
use not_only_mining_pool.Common.Dict.{Dict}
use not_only_mining_pool.Common.Float.{Float64}
use not_only_mining_pool.Storage.Redis.{FloatText, entries, Redis}
use not_only_mining_pool.Storage.Keys.{pplns_log}
use not_only_mining_pool.Storage.Shares.{Storage}
use not_only_mining_pool.Storage.Reads.{share_of, add_at, up_to, window_loop, get_pplns_shares}

module _ {fl : Float64} (texts : FloatText fl) where
  open fl use {F, of_nat, add, lt, le}

  -- The shares of the entries that can be read.
  unfoldable pub shares_of : List Bytes → List (Bytes × F)
  shares_of [] = []
  shares_of (m ∷ ms) = elim (share_of texts m) [ none ↦ shares_of ms | some x ↦ x ∷ shares_of ms ]

  -- What a list of shares adds to a map of difficulties, and to a sum.
  unfoldable pub credited : Dict F → List (Bytes × F) → Dict F
  credited out [] = out
  credited out ((miner, diff) ∷ l) = credited (add_at texts miner diff out) l

  unfoldable pub work : F → List (Bytes × F) → F
  work cum [] = cum
  work cum ((miner, diff) ∷ l) = work (add cum diff) l

  -- A window that is not positive is never filled.
  unfoldable pub fills : F → F → Bool
  fills window cum = lt (of_nat 0) window && le window cum

  -- The window is not filled in front of the last share.
  abbrev pub IsShortest : F → F → List (Bytes × F) → Type 0
  IsShortest window cum [] = Unit {0}
  IsShortest window cum (x ∷ []) = Unit {0}
  IsShortest window cum (x ∷ y ∷ l) =
      (fills window (add cum x.1) ≡ false) × IsShortest window (add cum x.1) (y ∷ l)

  IsShortest-cons :
      (window cum : F) (x : Bytes × F) (l : List (Bytes × F))
      → fills window (add cum x.1) ≡ false
      → IsShortest window (add cum x.1) l
      → IsShortest window cum (x ∷ l)
  IsShortest-cons window cum x [] h i = tt
  IsShortest-cons window cum x (y ∷ l) h i = (h, i)

  -- What the loop answers: the credits of the shortest start of the shares that fills the window, or of
  -- all of them.
  abbrev pub IsWindow : F → F → Dict F → List (Bytes × F) → Dict F → Type 0
  IsWindow window cum out shares answer =
      (front : List (Bytes × F)) × (back : List (Bytes × F)) × (shares ≡ front ++ back)
      × (answer ≡ credited out front)
      × IsShortest window cum front
      × ((back ≡ []) ⊎ (fills window (work cum front) ≡ true))

  start_shares : shares_of [] ≡ []
  unfolding shares_of
  start_shares = refl

  start_loop :
      (window : F) (out : Dict F) (cum : F) → window_loop texts window out cum [] ≡ credited out []
  unfolding window_loop credited
  start_loop window out cum = refl

  shares_of_skip :
      (m : Bytes) (ms : List Bytes) → share_of texts m ≡ none → shares_of (m ∷ ms) ≡ shares_of ms
  unfolding shares_of
  shares_of_skip m ms e = rw (shares_of, e) refl

  shares_of_more :
      (m : Bytes) (ms : List Bytes) (x : Bytes × F)
      → share_of texts m ≡ some x
      → shares_of (m ∷ ms) ≡ x ∷ shares_of ms
  unfolding shares_of
  shares_of_more m ms x e = rw (shares_of, e) refl

  window_loop_skip :
      (window : F) (out : Dict F) (cum : F) (m : Bytes) (ms : List Bytes)
      → share_of texts m ≡ none
      → window_loop texts window out cum (m ∷ ms) ≡ window_loop texts window out cum ms
  unfolding window_loop
  window_loop_skip window out cum m ms e = rw (window_loop, e) refl

  window_loop_more :
      (window : F) (out : Dict F) (cum : F) (m : Bytes) (ms : List Bytes) (x : Bytes × F)
      → share_of texts m ≡ some x
      → window_loop texts window out cum (m ∷ ms) ≡ (
          if fills window (add cum x.1)
          then add_at texts x.0 x.1 out
          else window_loop texts window (add_at texts x.0 x.1 out) (add cum x.1) ms)
  unfolding window_loop fills
  window_loop_more window out cum m ms x e = rw (window_loop, e) refl

  window_loop-IsWindow :
      (window : F) (out : Dict F) (cum : F) (ms : List Bytes)
      → IsWindow window cum out (shares_of ms) (window_loop texts window out cum ms)
  unfolding credited work
  window_loop-IsWindow window out cum [] =
      ([], [], start_shares, start_loop window out cum, tt, inl refl)
  window_loop-IsWindow window out cum (m ∷ ms) = elim (Option-cases (share_of texts m)) [
    | inl e ↦
        let (front, back, parts, answer, short, end) = window_loop-IsWindow window out cum ms in
        (
          front,
          back,
          shares_of_skip m ms e ∙ parts,
          window_loop_skip window out cum m ms e ∙ answer,
          short,
          end,
        )
    | inr ((miner, diff), e) ↦
        let more = window_loop_more window out cum m ms (miner, diff) e in
        elim (Bool-cases (fills window (add cum diff))) [
          | inl full ↦ (
            (miner, diff) ∷ [],
            shares_of ms,
            shares_of_more m ms (miner, diff) e,
            more ∙ rw full refl,
            tt,
            inr full,
          )
          | inr room ↦
              let (front, back, parts, answer, short, end) =
                window_loop-IsWindow window (add_at texts miner diff out) (add cum diff) ms in
              (
                (miner, diff) ∷ front,
                back,
                shares_of_more m ms (miner, diff) e ∙ ap (λ l. (miner, diff) ∷ l) parts,
                more ∙ rw room answer,
                IsShortest-cons window cum (miner, diff) front room short,
                end,
              )
        ]
  ]

  module _ (redis : Redis) (s : Storage) where
    -- GetPPLNSShares credits the newest shares up to the block's mark, as few as fill the window: the shares
    -- that it credits begin those up to the mark, newest first; without the last of them the window is not
    -- filled; and they fill it, or there are no others.
    pub get_pplns_shares_lem :
        (upto_seq : Signed) (window : F) (db : redis.Db)
        → IsWindow window
            (of_nat 0)
            []
            (shares_of (
              map
                (λ e. e.0)
                (reverse (up_to upto_seq (entries (redis.value db (pplns_log s.coin)))))))
            (get_pplns_shares texts redis s upto_seq window db)
    unfolding get_pplns_shares
    get_pplns_shares_lem upto_seq window db = window_loop-IsWindow window [] (of_nat 0) _
