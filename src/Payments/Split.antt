-- ===== src/Payments/Split.antt =====
-- payments/payer.go: the payer's settings, the split of a reward and the change of units.
use not_only_mining_pool.Common.{ℕ, ◌^◌, ◌+◌, ◌%◌, ◌-◌, [], ◌∷◌, Bytes, Bool, if◌then◌else◌}
use not_only_mining_pool.Common.Dict.{Dict}
use not_only_mining_pool.Common.Float.{Float64}

-- PayMode, after Init has refused any other.
pub data PayMode : Type 0 where
  prop pplns solo pps : PayMode

-- uint64 addition and subtraction
abbrev pub add64 : ℕ → ℕ → ℕ
add64 a b = (a + b) % 2 ^ 64

abbrev pub sub64 : ℕ → ℕ → ℕ
sub64 a b = (a + 2 ^ 64 - b) % 2 ^ 64

module _ (fl : Float64) where
  open fl use {F, of_nat, add, mul, div, lt, le, floor}

  -- The fields of PaymentManager and of its options that a run reads. Intervals and RPC names are
  -- left out; `checks_validity` says that AddressCheckMethod is "validateaddress".
  pub record PaymentManager : Type 0 where
    pub pay_mode : PayMode
    pub pplns_window : F
    pub pps_rate : F
    pub min_confirmations : ℕ
    pub checks_validity : Bool
    pub pool_address : Bytes
    pub magnitude : F
    pub min_payment : ℕ

  -- `total += s` over the map
  unfoldable pub sum_shares : F → Dict F → F
  sum_shares total [] = total
  sum_shares total ((miner, s) ∷ m) = sum_shares (add total s) m

  unfoldable pub split_entries : ℕ → F → Dict F → Dict ℕ
  split_entries reward total [] = []
  split_entries reward total ((miner, s) ∷ m) =
      (miner, floor (mul (of_nat reward) (div s total))) ∷ split_entries reward total m

  -- splitByShares
  unfoldable pub split_by_shares : ℕ → Dict F → Dict ℕ
  unfolding sum_shares split_entries
  split_by_shares reward_sat shares =
      let total = sum_shares (of_nat 0) shares in
      if le total (of_nat 0) then [] else split_entries reward_sat total shares

  -- SatToCoin
  unfoldable pub sat_to_coin : PaymentManager → ℕ → F
  sat_to_coin pm sat = div (of_nat sat) pm.magnitude

  -- CoinToSat; 0.5 is a half exactly.
  unfoldable pub coin_to_sat : PaymentManager → F → ℕ
  coin_to_sat pm coin =
      if le coin (of_nat 0)
      then 0
      else floor (add (mul coin pm.magnitude) (div (of_nat 1) (of_nat 2)))
