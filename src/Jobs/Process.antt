-- ===== src/Jobs/Process.antt =====
-- jobs/jobManager.go, ProcessShare: a block is submitted to the node, and the share goes to storage.
use not_only_mining_pool.Common.{ℕ, Bool, false, Option, some, [], ◌∷◌, Bytes}
use not_only_mining_pool.Common.Fallible.{◌>>=◌}
use not_only_mining_pool.Common.Float.{Float64}
use not_only_mining_pool.Jobs.Template.{Template}
use not_only_mining_pool.Jobs.Share.{Share}
use not_only_mining_pool.Jobs.Manager.{Options, JobManager, process_template}

-- What the node answers about a submitted block: CheckBlockAccepted and GetBlockTemplate, whose error
-- panics. `fresh` is what RandHexUint64 returns.
pub record Replies : Type 0 where
  pub accepted : Bool
  pub tx : Bytes
  pub template : Option Template
  pub fresh : Bytes

module _ (decode : Bytes → Option Bytes) (fl : Float64) (opts : Options decode fl) where
  -- ProcessShare: what is given to PutShare, and the jobs after it.
  unfoldable pub process_share :
      JobManager decode fl
      → Share fl
      → Replies
      → ℕ
      → Option ((Share fl × Bool) × JobManager decode fl)
  process_share jm share r now = elim share.block_hex [
    | [] ↦ some ((share, false), jm)
    | b ∷ hex ↦ do
      t ← r.template
      jm' ← process_template decode fl opts jm t r.fresh now
      some ((record share { tx_hash = r.tx }, r.accepted), jm')
  ]
