-- ===== src/Examples/Shares.antt =====
-- The share log of a pool in the pps mode, and a payout run over it.
use not_only_mining_pool.Common.{
  ℕ, true, false, none, some, [], ◌∷◌, Bytes, Bool, List, codes, plus, if◌then◌else◌,
}
use not_only_mining_pool.Common.Texts.{text_eq}
use not_only_mining_pool.Jobs.Share.{Share, job_not_found}
use not_only_mining_pool.Storage.Types.{PaymentUpdate}
use not_only_mining_pool.Storage.Redis.{Value, missing, string, scored, entries, exec_all}
use not_only_mining_pool.Storage.Keys.{shares_seq, pplns_log}
use not_only_mining_pool.Storage.Shares.{Storage, share_writer}
use not_only_mining_pool.Storage.Reads.{get_pplns_shares, up_to, at_most}
use not_only_mining_pool.Storage.Payouts.{apply_payments}
use not_only_mining_pool.Storage.Reads.Window.{IsWindow, shares_of, get_pplns_shares_lem}
use not_only_mining_pool.Examples.Numbers.{cents}
use not_only_mining_pool.Examples.Memory.{memory, cent_texts}

abbrev pps_store : Storage
pps_store = record { coin = codes "c"; pps_mode = true; log_cap = 3 }

abbrev share : Share cents
share = record {
  job_id = codes "1";
  miner = codes "n";
  rig = codes "r";
  error = none;
  block_height = 7;
  block_reward = 0;
  diff = 700;
  block_hash = [];
  block_hex = [];
  tx_hash = [];
}

-- One share is in the log, and two more come in, of which one is not valid.
abbrev one_share : Bytes → Value
one_share k =
    if text_eq k (shares_seq (codes "c"))
    then string (codes "1")
    else if text_eq k (pplns_log (codes "c"))
    then scored ((codes "m:300:1", 1) ∷ [])
    else missing

abbrev queue : List (Share cents × Bool × ℕ)
queue = (share, false, 50) ∷ (record share { error = some job_not_found }, false, 51) ∷ []

-- The payout run that has credited the first share.
abbrev first_credited : PaymentUpdate cents
first_credited = record {
  balances = (codes "m", 300) ∷ [];
  paid = [];
  confirmed = [];
  orphaned = [];
  delete_rounds = [];
  pps_cursor = 1;
}

abbrev credited : Bytes → Value
credited =
    exec_all memory (apply_payments cent_texts pps_store first_credited)
      (share_writer cent_texts pps_store memory queue one_share)

-- Three shares, of which the newest two fill a window of 5.
abbrev three_shares : Bytes → Value
three_shares k =
    if text_eq k (pplns_log (codes "c"))
    then scored (
        (codes "m:300:1", 1)
        ∷ (codes "n:200:2", 2)
        ∷ (codes "m:400:3", 3)
        ∷ (codes "n:900:4", 4)
        ∷ [])
    else missing

get_pplns_shares_lem_example :
    IsWindow cent_texts 500 0 []
      (shares_of cent_texts (codes "m:400:3" ∷ codes "n:200:2" ∷ codes "m:300:1" ∷ []))
      (get_pplns_shares cent_texts memory pps_store (plus 3) 500 three_shares)
unfolding up_to at_most entries text_eq
get_pplns_shares_lem_example =
    get_pplns_shares_lem cent_texts memory pps_store (plus 3) 500 three_shares
