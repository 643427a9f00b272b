-- ===== src/Payments/Prog.antt =====
-- What a payout run calls, and programs over these calls. A program is a tree: a call, and what is
-- done next for each of its replies, so that a run can be cut off at every call.
use not_only_mining_pool.Common.{ℕ, List, Option, Bytes, Bool, Signed}
use not_only_mining_pool.Common.Dict.{Dict}
use not_only_mining_pool.Common.Float.{Float64}
use not_only_mining_pool.Storage.Types.{PendingBlock, PaymentUpdate}

-- Why a run returns an error: what redis answered, or the payer's own errors. `out_of_fuel` is no
-- error of the source.
pub data Error : Type 0 where
  redis : Bytes → Error
  no_response in_flight fees send_failed out_of_fuel : Error

pub data Result {ℓ} (A : Type ℓ) : Type ℓ where
  ok : A → Result A
  err : Bytes → Result A

-- What comes back of a wallet call: no response, an error with its code, a result that does not
-- decode, or a result.
pub data Rpc {ℓ} (A : Type ℓ) : Type ℓ where
  no_result : Rpc A
  rpc_error : Signed → Rpc A
  malformed : Rpc A
  result : A → Rpc A

module _ (fl : Float64) where
  pub record TxDetail : Type 0 where
    pub address : Bytes
    pub category : Bytes
    pub amount : fl.F

  -- The parts of a gettransaction result that the payer reads.
  pub record Transaction : Type 0 where
    pub confirmations : Signed
    pub amount : fl.F
    pub details : List TxDetail

  pub data Call : Type 0 where
    -- redis, through storage.DB
    get_payout_intent : Call
    put_payout_intent : PaymentUpdate fl → Call
    set_payout_intent_txid : Bytes → Call
    del_payout_intent : Call
    apply_payments : PaymentUpdate fl → Call
    get_all_miner_balances : Call
    get_all_pending_blocks : Call
    get_round_contrib : ℕ → Call
    get_pplns_shares : Signed → fl.F → Call
    get_pps_cursor : Call
    get_shares_since : ℕ → Call
    -- the wallet, through cmd
    get_transaction : Bytes → Call
    get_block : Bytes → Call
    check_address : Bytes → Call
    send_many : Dict fl.F → Call

  abbrev pub Reply : Call → Type 0
  Reply get_payout_intent = Result (Option (PaymentUpdate fl × Bytes))
  Reply (put_payout_intent u) = Result (Unit {0})
  Reply (set_payout_intent_txid t) = Result (Unit {0})
  Reply del_payout_intent = Result (Unit {0})
  Reply (apply_payments u) = Result (Unit {0})
  Reply get_all_miner_balances = Result (Dict fl.F)
  Reply get_all_pending_blocks = Result (List PendingBlock)
  Reply (get_round_contrib h) = Result (Dict fl.F)
  Reply (get_pplns_shares m w) = Result (Dict fl.F)
  Reply get_pps_cursor = Result ℕ
  Reply (get_shares_since c) = Result (Dict fl.F × ℕ)
  Reply (get_transaction t) = Rpc Transaction
  Reply (get_block h) = Rpc Signed
  -- whether the reply says isvalid
  Reply (check_address a) = Rpc Bool
  -- the transaction id
  Reply (send_many a) = Rpc Bytes

  pub data Prog (A : Type 0) : Type 0 where
    done : A → Prog A
    fail : Error → Prog A
    call : (c : Call) → (Reply c → Prog A) → Prog A

module _ {fl : Float64} where
  infixl 5 ◌>>=◌ ◌>>◌
  abbrev pub ◌>>=◌ : {A B : Type 0} → Prog fl A → (A → Prog fl B) → Prog fl B
  done a >>= f = f a
  fail e >>= f = fail e
  call c k >>= f = call c (λ r. k r >>= f)

  abbrev pub ◌>>◌ : {B : Type 0} → Prog fl (Unit {0}) → Prog fl B → Prog fl B
  m >> p = m >>= λ _. p

  -- `if err != nil { return err }`
  abbrev pub of_result : {A : Type 0} → Result A → Prog fl A
  of_result (ok a) = done a
  of_result (err e) = fail (redis e)
