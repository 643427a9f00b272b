-- ===== src/Jobs/Submit.antt =====
-- jobs/jobManager.go, ProcessSubmit: what becomes of a share that a miner submits.
pub mod Accepted
pub mod Once
pub mod Worked
pub mod Replay
use not_only_mining_pool.Common.{
  ℕ, suc, ◌+◌, ◌-◌, ◌*◌, ◌%◌, ◌^◌, Bool, true, false, not, Option, none, some, List, [], ◌∷◌, ◌++◌,
  Bytes, length, ltb, leb, ◌==◌, if◌then◌else◌, text_eq, codes, Signed, plus, minus, ◌||◌,
}
use not_only_mining_pool.Common.Dict.{Dict, lookup, insert}
use not_only_mining_pool.Common.Fallible.{◌>>=◌}
use not_only_mining_pool.Common.Float.{Float64}
use not_only_mining_pool.Utils.Hex.{hex_encode, hex_decode, parse_hex}
use not_only_mining_pool.Utils.Compact.{get_be}
use not_only_mining_pool.Utils.Reverse.{reverse_bytes}
use not_only_mining_pool.Merkle.{with_first}
use not_only_mining_pool.Jobs.Job.{
  Job, serialize_header, serialize_coinbase, serialize_block, register_submit,
}
use not_only_mining_pool.Jobs.Share.{
  ShareError, job_not_found, incorrect_extra_nonce2_size, incorrect_n_time_size,
  n_time_out_of_range, incorrect_nonce_size, duplicate_share, low_diff_share, BigFloat, Share,
  refused,
}
use not_only_mining_pool.Jobs.Manager.{Options, JobManager}

-- algorithm.MaxTargetTruncated
abbrev pub max_target_truncated : ℕ
max_target_truncated = 0xffff * 2 ^ 208

-- strings.Split(s, "."), its first two parts.
unfoldable pub first_part : Bytes → Bytes
first_part [] = []
first_part (c ∷ cs) = elim (c == 46) [ true ↦ [] | false ↦ c ∷ first_part cs ]

unfoldable pub behind_dot : Bytes → Option Bytes
behind_dot [] = none
behind_dot (c ∷ cs) = elim (c == 46) [ true ↦ some cs | false ↦ behind_dot cs ]

unfoldable pub rig_of : Bytes → Bytes
unfolding first_part behind_dot
rig_of worker = elim (behind_dot worker) [ none ↦ codes "unknown" | some rest ↦ first_part rest ]

-- The number of nTime; ParseInt returns 0 with an error, which is logged.
unfoldable pub n_time_int : Bytes → Signed
n_time_int hex = elim (parse_hex hex) [ none ↦ plus 0 | some n ↦ n ]

-- uint32(n)
unfoldable pub to_uint32 : Signed → ℕ
to_uint32 (plus n) = n % 2 ^ 32
to_uint32 (minus n) = 2 ^ 32 - 1 - n % 2 ^ 32

-- Whether it is later than the given time.
unfoldable pub is_after : Signed → ℕ → Bool
is_after (plus n) time = ltb time n
is_after (minus n) time = false

-- `job.Target.Cmp(hash) > 0`
unfoldable pub reaches : Signed → ℕ → Bool
reaches (plus target) hash = ltb hash target
reaches (minus target) hash = false

-- The hash functions and the multiplier of options.Algorithm, which is below 63: 1<<multiplier fits an int64. `block_hasher` is the function that
-- BlockHasher names, if it names one.
pub record Algorithm : Type 0 where
  pub hash : Bytes → Bytes
  pub block_hasher : Option (Bytes → Bytes)
  pub sha256d_block_hasher : Bool
  pub sha256d : Bytes → Bytes
  pub multiplier : ℕ

unfoldable pub block_hash_of : Algorithm → Bytes → Bytes
block_hash_of a header = elim a.block_hasher [
  | some f ↦ reverse_bytes (f header)
  | none ↦
      if a.sha256d_block_hasher
      then reverse_bytes (a.sha256d header)
      else reverse_bytes (a.hash header)
]

module _ (decode : Bytes → Option Bytes) {fl : Float64} (bf : BigFloat fl) where
  open bf use {B, of_nat, of_float, quo, less, to_float}

  module _ (opts : Options decode fl) (alg : Algorithm) where
    -- What a miner submits: five texts and the extra nonce of its connection, which is bytes.
    pub record Submission : Type 0 where
      pub job_id : Bytes
      pub extra_nonce1 : Bytes
      pub extra_nonce2 : Bytes
      pub n_time : Bytes
      pub nonce : Bytes
      pub worker : Bytes

    -- The checks of ProcessSubmit in front of RegisterSubmit, at the Unix time `now`.
    unfoldable pub check_submission : Submission → Job → ℕ → Option ShareError
    unfolding n_time_int to_uint32 is_after
    check_submission s job now =
        if not (length (hex_decode s.extra_nonce2) == opts.extra_nonce2_size)
        then some incorrect_extra_nonce2_size
        else if not (length s.n_time == 8)
        then some incorrect_n_time_size
        else if ltb (to_uint32 (n_time_int s.n_time)) job.template.cur_time
            || is_after (n_time_int s.n_time) (now + 7)
        then some n_time_out_of_range
        else if not (length s.nonce == 8)
        then some incorrect_nonce_size
        else none

    unfoldable pub coinbase_of : Submission → Job → Bytes
    coinbase_of s job = serialize_coinbase job s.extra_nonce1 (hex_decode s.extra_nonce2)

    -- The header that the miner has hashed.
    unfoldable pub header_of : Submission → Job → Option Bytes
    unfolding coinbase_of
    header_of s job =
        let coinbase_hash = opts.coinbase_hasher (coinbase_of s job) in
        let merkle_root =
          reverse_bytes (with_first opts.coinbase_hasher job.merkle_steps coinbase_hash) in
        serialize_header job.template merkle_root (hex_decode s.n_time) (hex_decode s.nonce)

    -- The header's hash as a number.
    unfoldable pub hash_of : Bytes → ℕ
    hash_of header = get_be 0 (reverse_bytes (alg.hash header))

    unfoldable pub share_diff : ℕ → B
    share_diff hash = quo (of_nat (max_target_truncated * 2 ^ alg.multiplier)) (of_nat hash)

    -- The last part of ProcessSubmit: a block, a share that is too easy, one that fits the difficulty
    -- from before a change, or a share.
    unfoldable pub judge : Submission → Job → Option B → B → Bytes → Share fl
    unfolding hash_of share_diff coinbase_of
    judge s job prev_diff diff header =
        let miner = first_part s.worker in
        let rig = rig_of s.worker in
        let hash = hash_of header in
        let share : Share fl = record {
          job_id = s.job_id;
          miner = miner;
          rig = rig;
          error = none;
          block_height = 0;
          block_reward = 0;
          diff = to_float diff;
          block_hash = [];
          block_hex = [];
          tx_hash = [];
        } in
        let easy = record (refused fl s.job_id s.worker [] low_diff_share) { rig = [] } in
        if reaches job.target hash
        then record share {
          block_height = job.template.height;
          block_reward = job.template.coinbase_value;
          block_hash = hex_encode (block_hash_of alg header);
          block_hex = hex_encode (serialize_block job header (coinbase_of s job));
        }
        else if less (quo (share_diff hash) diff) (of_float (fl.div (fl.of_nat 99) (fl.of_nat 100)))
        then (elim prev_diff [
          | none ↦ easy
          | some prev ↦ if less (share_diff hash) prev then easy else record share {
            block_height = job.template.height;
            block_reward = job.template.coinbase_value;
            diff = to_float prev;
          }
        ])
        else share

    -- What a valid job does with a submission.
    unfoldable pub submit_to :
        JobManager decode fl
        → Job
        → Submission
        → Option B
        → B
        → ℕ
        → Option (Share fl × JobManager decode fl)
    submit_to jm job s prev_diff diff now =
        let miner = first_part s.worker in
        let rig = rig_of s.worker in
        elim (check_submission s job now) [
          | some e ↦ some (refused fl s.job_id miner rig e, jm)
          | none ↦
              let (fresh, job') =
                register_submit job (hex_encode s.extra_nonce1) s.extra_nonce2 s.n_time s.nonce in
              let jm' = record jm { valid_jobs = insert s.job_id job' jm.valid_jobs } in
              if fresh
              then (do header ← header_of s job'; some (judge s job' prev_diff diff header, jm'))
              else some (refused fl s.job_id miner rig duplicate_share, jm)
        ]

    -- ProcessSubmit
    unfoldable pub process_submit :
        JobManager decode fl
        → Submission
        → Option B
        → B
        → ℕ
        → Option (Share fl × JobManager decode fl)
    unfolding submit_to
    process_submit jm s prev_diff diff now =
        let unknown =
          some (refused fl s.job_id (first_part s.worker) (rig_of s.worker) job_not_found, jm) in
        elim (lookup s.job_id jm.valid_jobs) [
          | none ↦ unknown
          | some job ↦
              if text_eq job.job_id s.job_id then submit_to jm job s prev_diff diff now else unknown
        ]
