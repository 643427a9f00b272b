-- ===== src/Examples/Mining.antt =====
-- A job at height 7, a submission that finds its block, and the next template.
use not_only_mining_pool.Common.{
  ◌≡◌, ◌<◌, refl, ◌⊎◌, [], ◌∷◌, ◌++◌, Bytes, true, false, Option, none, some, codes, plus, take,
  replicate, length, arith, ◌||◌,
}
use not_only_mining_pool.Common.Dict.{lookup, insert}
use not_only_mining_pool.Common.Texts.{text_eq}
use not_only_mining_pool.Utils.Hex.{
  hex_digit, hex_encode, hex_value, hex_decode, is_hex, digits_value, unsigned_value, parse_hex,
}
use not_only_mining_pool.Utils.Compact.{get_be, big_int_from_bits_hex}
use not_only_mining_pool.Utils.Reverse.{reverse_bytes, reverse_byte_order}
use not_only_mining_pool.Utils.Search.{strings_index_of}
use not_only_mining_pool.Utils.Pack.{put_be, pack_uint32_be}
use not_only_mining_pool.Merkle.{with_first}
use not_only_mining_pool.Jobs.Template.{Template}
use not_only_mining_pool.Jobs.Job.{
  Job, copy_at, serialize_header, serialize_coinbase, serialize_block, target_of,
  get_transaction_bytes, decode_transactions, register_submit,
}
use not_only_mining_pool.Jobs.Job.Header.{serialize_header-eq-bitcoin_header, bitcoin_header}
use not_only_mining_pool.Jobs.Job.Register.{register_submit_lem}
use not_only_mining_pool.Utils.Search.{contains}
use not_only_mining_pool.Utils.Number.{serialize_number}
use not_only_mining_pool.Transactions.Outputs.{generate_output_transactions}
use not_only_mining_pool.Transactions.Generation.{script_sig_part1, create_generation}
use not_only_mining_pool.Jobs.Share.{Share, refused, duplicate_share}
use not_only_mining_pool.Jobs.Manager.{
  Options, JobManager, current, new_job, put_job, process_template,
}
use not_only_mining_pool.Jobs.Manager.Templates.{Replaced, process_template_lem}
use not_only_mining_pool.Jobs.Submit.{
  Algorithm, Submission, first_part, behind_dot, rig_of, n_time_int, to_uint32, is_after, reaches,
  check_submission, coinbase_of, header_of, hash_of, judge, submit_to, process_submit,
}
use not_only_mining_pool.Jobs.Submit.Accepted.{texts}
use not_only_mining_pool.Jobs.Submit.Worked.{Worked, process_submit_accepts}
use not_only_mining_pool.Jobs.Submit.Once.{accepted_then_duplicate}
use not_only_mining_pool.Jobs.Submit.Replay.{altered, replayed_share_is_accepted}
use not_only_mining_pool.Examples.Numbers.{cents, big_cents}

-- Base 58 is not decoded here.
abbrev pub decode : Bytes → Option Bytes
decode b = some b

abbrev first_32 : Bytes → Bytes
first_32 b = take 32 (b ++ replicate 32 0)

abbrev zeros : Bytes
zeros = replicate 64 48

abbrev pub template : Template
template = record {
  version = 1;
  bits = codes "1d00ffff";
  cur_time = 100;
  height = 7;
  previous_block_hash = zeros;
  transactions = [];
  coinbase_aux_flags = [];
  coinbase_value = 5000;
  default_witness_commitment = codes "6a";
  target = [];
  masternode = [];
  superblock = [];
  coinbase_payload = [];
  votes = [];
  masternode_payments = false;
  payee = none;
  payee_amount = none;
}

abbrev pub options : Options decode cents
options = record {
  pool_script = 81 ∷ [];
  extra_nonce_placeholder = replicate 8 0;
  coin_reward = codes "POW";
  tx_messages = false;
  recipients = [];
  coinbase_hasher = first_32;
  extra_nonce2_size = 4;
}

abbrev pub algorithm : Algorithm
algorithm = record {
  hash = first_32;
  block_hasher = none;
  sha256d_block_hasher = false;
  sha256d = first_32;
  multiplier = 0;
}

abbrev pub job : Job
job = record {
  template = template;
  submits = [];
  generation1 = 1 ∷ [];
  generation2 = 2 ∷ [];
  job_id = codes "a";
  prev_hash_reversed = zeros;
  merkle_branch = [];
  target = plus 5;
  transaction_data = [];
  reward = [];
  merkle_steps = [];
}

abbrev pub jobs : JobManager decode cents
jobs = record { current_job = some (codes "a"); valid_jobs = (codes "a", job) ∷ [] }

abbrev submitted : Submission decode big_cents options algorithm
submitted = record {
  job_id = codes "a";
  extra_nonce1 = 0 ∷ 0 ∷ 0 ∷ 1 ∷ [];
  extra_nonce2 = codes "00000002";
  n_time = codes "00000064";
  nonce = codes "00000003";
  worker = codes "m.rig";
}

abbrev header : Bytes
header = elim (header_of decode big_cents options algorithm submitted job) [
  | none ↦ []
  | some h ↦ h
]

abbrev job_after : Job
job_after = record job { submits = codes "00000001000000020000006400000003" ∷ [] }

abbrev jobs_after : JobManager decode cents
jobs_after = record jobs { valid_jobs = (codes "a", job_after) ∷ [] }

abbrev credited : Share cents
credited = judge decode big_cents options algorithm submitted job none 100 header

credited_ok : credited.error ≡ none
unfolding judge reaches hash_of get_be header_of coinbase_of serialize_coinbase with_first
    serialize_header copy_at reverse_bytes hex_decode hex_value pack_uint32_be put_be
credited_ok = refl

processed :
    process_submit decode big_cents options algorithm jobs submitted none 100 103
    ≡ some (credited, jobs_after)
unfolding process_submit lookup text_eq submit_to check_submission hex_decode hex_value n_time_int
    parse_hex unsigned_value digits_value to_uint32 is_after register_submit strings_index_of
    hex_encode hex_digit insert header_of coinbase_of serialize_coinbase with_first serialize_header
    copy_at reverse_bytes judge reaches hash_of get_be rig_of behind_dot first_part pack_uint32_be
    put_be serialize_block
processed = refl

process_submit_accepts_example :
    (j : Job) × (h : Bytes) × Worked decode big_cents options algorithm submitted jobs none 100 103
      j credited h
process_submit_accepts_example =
    process_submit_accepts decode big_cents options algorithm jobs submitted none 100 103 credited
      jobs_after processed credited_ok

accepted_then_duplicate_example :
    process_submit decode big_cents options algorithm jobs_after submitted (some 50) 100 110
    ≡ some (refused cents (codes "a") (codes "m") (codes "rig") duplicate_share, jobs_after)
unfolding rig_of behind_dot first_part
accepted_then_duplicate_example =
    accepted_then_duplicate decode big_cents options algorithm submitted jobs jobs_after credited
      none (some 50) 100 100 103 110 processed credited_ok (omega arith)

nothing_seen :
    (j : Job)
    → lookup (codes "a") jobs.valid_jobs ≡ some j
    → contains
        (texts decode big_cents options algorithm
          (altered decode big_cents options algorithm submitted 122 (122 ∷ [])))
        j.submits
      ≡ false
unfolding lookup text_eq contains
nothing_seen j e = let same : job ≡ j = cc e in rw (← same) refl

-- The second extra nonce is sent again with "zz" behind it.
replayed_share_is_accepted_example :
    (jm : JobManager decode cents) × (process_submit decode big_cents options algorithm jobs_after
        (altered decode big_cents options algorithm submitted 122 (122 ∷ []))
        none
        100
        104
      ≡ some (credited, jm))
unfolding is_hex hex_value
replayed_share_is_accepted_example =
    replayed_share_is_accepted decode big_cents options algorithm submitted 122 (122 ∷ []) jobs
      jobs_after credited none 100 103 104 processed credited_ok refl refl nothing_seen
      (omega arith)

serialize_header-eq-bitcoin_header_example :
    (serialize_header template (replicate 32 9) (0 ∷ 0 ∷ 0 ∷ 100 ∷ []) (0 ∷ 0 ∷ 0 ∷ 3 ∷ [])
      ≡ some (bitcoin_header template (replicate 32 9) (0 ∷ 0 ∷ 0 ∷ 100 ∷ []) (0 ∷ 0 ∷ 0 ∷ 3 ∷ [])))
    × (length (bitcoin_header template (replicate 32 9) (0 ∷ 0 ∷ 0 ∷ 100 ∷ []) (0 ∷ 0 ∷ 0 ∷ 3 ∷ []))
        ≡ 80)
unfolding hex_decode hex_value
serialize_header-eq-bitcoin_header_example =
    serialize_header-eq-bitcoin_header template (replicate 32 9) (0 ∷ 0 ∷ 0 ∷ 100 ∷ [])
      (0 ∷ 0 ∷ 0 ∷ 3 ∷ []) refl refl refl refl refl

register_submit_lem_example :
    ((register_submit job (codes "01") (codes "02") (codes "03") (codes "04")).0 ≡ true)
    × ((s : Bytes)
        → contains s
            (register_submit job (codes "01") (codes "02") (codes "03") (codes "04")).1.submits
          ≡ (contains s [] || text_eq s (codes "01020304")))
    × (record (register_submit job (codes "01") (codes "02") (codes "03") (codes "04")).1 {
      submits = [];
    }
        ≡ job)
unfolding contains
register_submit_lem_example =
    register_submit_lem job (codes "01") (codes "02") (codes "03") (codes "04")

abbrev next_template : Template
next_template = record template { height = 8 }

abbrev next_jobs : JobManager decode cents
next_jobs = elim (process_template decode cents options jobs next_template (codes "b") 200) [
  | none ↦ jobs
  | some jm ↦ jm
]

templated :
    process_template decode cents options jobs next_template (codes "b") 200 ≡ some next_jobs
unfolding process_template current lookup text_eq put_job new_job target_of big_int_from_bits_hex
    is_hex hex_decode reverse_byte_order get_transaction_bytes create_generation script_sig_part1
    serialize_number generate_output_transactions decode_transactions
templated = refl

process_template_lem_example :
    ((j : Job) × (current decode cents options jobs ≡ some j)
      × (8 < j.template.height)
      × (next_jobs ≡ jobs))
    ⊎ ((j : Job) × (current decode cents options jobs ≡ some j)
        × (8 ≡ j.template.height)
        × Replaced decode cents options jobs next_jobs j.job_id next_template)
    ⊎ (((current decode cents options jobs ≡ none)
          ⊎ ((j : Job) × (current decode cents options jobs ≡ some j) × (j.template.height < 8)))
        × Replaced decode cents options jobs next_jobs (codes "b") next_template)
process_template_lem_example =
    process_template_lem decode cents options jobs next_jobs next_template (codes "b") 200 templated
