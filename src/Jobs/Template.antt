-- ===== src/Jobs/Template.antt =====
-- daemons/getblocktemplate.go: what the pool reads of the node's block template.
use not_only_mining_pool.Common.{ℕ, Bool, List, Option, Bytes}

-- MasternodeParams, and SuperblockParams, which has the same fields.
pub record PayeeParams : Type 0 where
  pub payee : Bytes
  pub script : Bytes
  pub amount : ℕ

pub record TxParams : Type 0 where
  pub raw : Bytes
  pub hash : Bytes
  pub tx_id : Bytes

-- GetBlockTemplate. Hexadecimal texts are the bytes of their characters; `version` is the bit pattern of
-- an int32, and heights are not negative. `masternode_payments` says that the field of that name is not
-- null; `payee_amount` is the uint64 that the code asserts it to be.
pub record Template : Type 0 where
  pub version : ℕ
  pub bits : Bytes
  pub cur_time : ℕ
  pub height : ℕ
  pub previous_block_hash : Bytes
  pub transactions : List TxParams
  pub coinbase_aux_flags : Bytes
  pub coinbase_value : ℕ
  pub default_witness_commitment : Bytes
  pub target : Bytes
  pub masternode : List PayeeParams
  pub superblock : List PayeeParams
  pub coinbase_payload : Bytes
  pub votes : List Bytes
  pub masternode_payments : Bool
  pub payee : Option Bytes
  pub payee_amount : Option ℕ
