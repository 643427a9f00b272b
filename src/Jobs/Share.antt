-- ===== src/Jobs/Share.antt =====
-- types/share.go and types/errors.go: a share, and why one is refused.
use not_only_mining_pool.Common.{ℕ, Option, some, Bytes, Bool, []}
use not_only_mining_pool.Common.Float.{Float64}

-- ErrorWrap
pub data ShareError : Type 0 where
  job_not_found incorrect_extra_nonce2_size incorrect_n_time_size n_time_out_of_range : ShareError
  incorrect_nonce_size duplicate_share low_diff_share : ShareError

unfoldable pub error_code : ShareError → ℕ
error_code job_not_found = 20
error_code incorrect_extra_nonce2_size = 21
error_code incorrect_n_time_size = 22
error_code n_time_out_of_range = 23
error_code incorrect_nonce_size = 24
error_code duplicate_share = 25
error_code low_diff_share = 26

-- math/big's Float, as far as the pool uses it: conversions, `Quo` and `Cmp(y) < 0`.
pub record BigFloat (fl : Float64) : Type 1 where
  pub B : Type 0
  pub of_nat : ℕ → B
  pub of_float : fl.F → B
  pub quo : B → B → B
  pub less : B → B → Bool
  pub to_float : B → fl.F

module _ (fl : Float64) where
  -- Share, without the address it came from. Error code 0 is `none`; a block found has its text.
  pub record Share : Type 0 where
    pub job_id : Bytes
    pub miner : Bytes
    pub rig : Bytes
    pub error : Option ShareError
    pub block_height : ℕ
    pub block_reward : ℕ
    pub diff : fl.F
    pub block_hash : Bytes
    pub block_hex : Bytes
    pub tx_hash : Bytes

  -- A share with the fields that Go leaves at zero.
  unfoldable pub refused : Bytes → Bytes → Bytes → ShareError → Share
  refused job_id miner rig e = record {
    job_id = job_id;
    miner = miner;
    rig = rig;
    error = some e;
    block_height = 0;
    block_reward = 0;
    diff = fl.of_nat 0;
    block_hash = [];
    block_hex = [];
    tx_hash = [];
  }
