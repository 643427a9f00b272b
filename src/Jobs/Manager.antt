-- ===== src/Jobs/Manager.antt =====
-- jobs/jobManager.go: the jobs that are valid, and the one that is handed out. CurrentJob and the entry of
-- ValidJobs under its id are one shared object: `current_job` holds that id.
pub mod Templates
use mathlib.Core.Option
use not_only_mining_pool.Common.{
  ℕ, ◌+◌, ◌-◌, ◌*◌, Bool, true, false, Option, none, some, List, [], ◌∷◌, ◌++◌, Bytes, map, ltb,
  ◌==◌, if◌then◌else◌, text_eq, codes,
}
use not_only_mining_pool.Common.Dict.{Dict, lookup, insert}
use not_only_mining_pool.Common.Fallible.{◌>>=◌}
use not_only_mining_pool.Common.Float.{Float64}
use not_only_mining_pool.Utils.Hex.{hex_encode, hex_decode}
use not_only_mining_pool.Utils.Reverse.{reverse_byte_order}
use not_only_mining_pool.Merkle.{calculate_steps}
use not_only_mining_pool.Transactions.Outputs.{Recipient}
use not_only_mining_pool.Transactions.Generation.{create_generation}
use not_only_mining_pool.Jobs.Template.{Template}
use not_only_mining_pool.Jobs.Job.{Job, get_transaction_bytes, decode_transactions, target_of}

module _ (decode : Bytes → Option Bytes) (fl : Float64) where
  -- What the job manager reads of its options, with the hash function of its coinbases.
  pub record Options : Type 0 where
    pub pool_script : Bytes
    pub extra_nonce_placeholder : Bytes
    pub coin_reward : Bytes
    pub tx_messages : Bool
    pub recipients : List (Recipient decode fl)
    pub coinbase_hasher : Bytes → Bytes
    pub extra_nonce2_size : ℕ

  pub record JobManager : Type 0 where
    pub current_job : Option Bytes
    pub valid_jobs : Dict Job

  module _ (opts : Options) where
    -- NewJob, at the Unix time `now`
    unfoldable pub new_job : Bytes → Template → ℕ → Option Job
    new_job job_id t now = do
      target ← target_of t
      prev_hash_reversed ← reverse_byte_order (hex_decode t.previous_block_hash)
      txs ← get_transaction_bytes t.transactions
      let steps = calculate_steps opts.coinbase_hasher txs
      (generation1, generation2) ←
          create_generation decode fl t now opts.pool_script opts.extra_nonce_placeholder
            opts.coin_reward opts.tx_messages opts.recipients
      transaction_data ← decode_transactions t.transactions
      some (record {
        template = t;
        submits = [];
        generation1 = generation1;
        generation2 = generation2;
        job_id = job_id;
        prev_hash_reversed = hex_encode prev_hash_reversed;
        merkle_branch = map hex_encode steps;
        target = target;
        transaction_data = transaction_data;
        reward = [];
        merkle_steps = steps;
      })

    -- UpdateCurrentJob and CreateNewJob, which differ in the id: the job becomes current and valid.
    unfoldable pub put_job : JobManager → Bytes → Template → ℕ → Option JobManager
    put_job jm job_id t now = do
      job ← new_job job_id t now
      some (record { current_job = some job_id; valid_jobs = insert job_id job jm.valid_jobs })

    -- The job that is handed out.
    unfoldable pub current : JobManager → Option Job
    current jm = elim jm.current_job [ none ↦ none | some id ↦ lookup id jm.valid_jobs ]

    -- ProcessTemplate; `fresh` is what RandHexUint64 returns.
    unfoldable pub process_template : JobManager → Template → Bytes → ℕ → Option JobManager
    unfolding put_job current
    process_template jm t fresh now = elim (current jm) [
      | none ↦ put_job jm fresh t now
      | some job ↦
          if ltb t.height job.template.height
          then some jm
          else if t.height == job.template.height
          then put_job jm job.job_id t now
          else put_job jm fresh t now
    ]
