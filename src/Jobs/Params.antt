-- ===== src/Jobs/Params.antt =====
-- jobs/job.go, GetJobParams: what a miner is told of a job.
use not_only_mining_pool.Common.{ℕ, ◌%◌, ◌^◌, Bool, List, Bytes}
use not_only_mining_pool.Utils.Hex.{hex_encode}
use not_only_mining_pool.Utils.Pack.{pack_uint32_be, pack_int32_be}
use not_only_mining_pool.Jobs.Job.{Job}

pub record JobParams : Type 0 where
  pub job_id : Bytes
  pub prev_hash_reversed : Bytes
  pub generation1 : Bytes
  pub generation2 : Bytes
  pub merkle_branch : List Bytes
  pub version : Bytes
  pub bits : Bytes
  pub time : Bytes
  pub force_update : Bool

-- GetJobParams, at the Unix time `now`
unfoldable pub get_job_params : Job → Bool → ℕ → JobParams
get_job_params j force_update now = record {
  job_id = j.job_id;
  prev_hash_reversed = j.prev_hash_reversed;
  generation1 = hex_encode j.generation1;
  generation2 = hex_encode j.generation2;
  merkle_branch = j.merkle_branch;
  version = hex_encode (pack_int32_be j.template.version);
  bits = j.template.bits;
  time = hex_encode (pack_uint32_be (now % 2 ^ 32));
  force_update = force_update;
}
