-- ===== src/Examples/Connections.antt =====
-- Miners that connect, log in and submit.
use not_only_mining_pool.Common.{
  ◌≡◌, arith, refl, [], ◌∷◌, ◌++◌, true, false, none, some, codes, map,
}
use not_only_mining_pool.Common.Dict.{lookup}
use not_only_mining_pool.Common.Texts.{text_eq}
use not_only_mining_pool.Bans.{new_banning_manager}
use not_only_mining_pool.Jobs.Params.{JobParams, get_job_params}
use not_only_mining_pool.Jobs.Share.{duplicate_share, error_code}
use not_only_mining_pool.Jobs.Manager.{current}
use not_only_mining_pool.Jobs.Process.{Replies}
use not_only_mining_pool.Stratum.Client.{
  Flow, goes_on, hangs, null, truth, response, Request, Settings, Client, new_stratum_client,
  total_shares, should_ban, send_mining_job,
}
use not_only_mining_pool.Stratum.Client.Handlers.{
  Session, names_of, let_in, handle_authorize, is_valid, answer, handle_submit, handle_message,
}
use not_only_mining_pool.Stratum.Client.Announced.{Told}
use not_only_mining_pool.Stratum.Client.Connection.{connected, received, Connection-Told}
use not_only_mining_pool.Stratum.Client.Answers.{answer_lem, handle_submit_unauthorized}
use not_only_mining_pool.Stratum.Client.Shares.{
  invalid_count, remembered, counting, Judged, should_ban_lem,
}
use not_only_mining_pool.Stratum.Server.{broadcast_current_mining_job}
use not_only_mining_pool.Stratum.Server.Broadcast.{is_idle, told, broadcast_lem}
use not_only_mining_pool.Examples.Numbers.{big_cents}
use not_only_mining_pool.Examples.Mining.{decode, options, algorithm, jobs, job}

abbrev settings : Settings big_cents
settings = record {
  initial_diff = 100;
  check_threshold = 2;
  invalid_percent = 5000;
  connection_timeout = 600;
}

abbrev miner : Client big_cents
miner = new_stratum_client big_cents 1 (codes "a:1") (0 ∷ 0 ∷ 0 ∷ 1 ∷ []) none 1000000000000

abbrev Pool : Type 0
Pool = Session decode big_cents options algorithm settings

abbrev fresh : Pool
fresh = record { client = miner; jobs = jobs; bans = new_banning_manager 100; stored = [] }

abbrev login : Request big_cents
login = record {
  method = codes "mining.authorize";
  id = codes "2";
  params = codes "m.rig" ∷ codes "x" ∷ [];
}

abbrev replies : Replies
replies = record { accepted = true; tx = []; template = none; fresh = [] }

abbrev logged_in : Pool
logged_in =
    elim (handle_message decode big_cents options algorithm settings login replies 1000000000000
      fresh) [ none ↦ fresh | some (flow, s) ↦ s ]

log_in :
    handle_message decode big_cents options algorithm settings login replies 1000000000000 fresh
    ≡ some (goes_on, logged_in)
unfolding handle_message text_eq handle_authorize names_of let_in current lookup send_mining_job
    new_stratum_client
log_in = refl

Connection-Told_example : Told big_cents logged_in.client
Connection-Told_example = Connection-Told decode big_cents options algorithm settings (
    received login replies 1000000000000
      (connected 1 (codes "a:1") (0 ∷ 0 ∷ 0 ∷ 1 ∷ []) none 1000000000000) log_in)

handle_submit_unauthorized_example :
    (flow : Flow) × (s : Pool) × (handle_submit decode big_cents options algorithm settings login
        replies 1000000000000 fresh
      ≡ some (flow, s))
    × (s.jobs ≡ jobs)
    × (s.stored ≡ [])
    × (s.client.sent ≡ response (codes "2") null (some 24) ∷ [])
unfolding new_stratum_client
handle_submit_unauthorized_example =
    handle_submit_unauthorized decode big_cents options algorithm settings login replies
      1000000000000 fresh refl

abbrev answered : Pool
answered =
    (answer decode big_cents options algorithm settings login (some duplicate_share) 5 fresh).1

answered_on :
    answer decode big_cents options algorithm settings login (some duplicate_share) 5 fresh
    ≡ (goes_on, answered)
unfolding answer should_ban is_valid total_shares new_stratum_client
answered_on = refl

answer_lem_example :
    answered.client.sent
    ≡ response (codes "2") (truth true) none
      ∷ response (codes "2") (truth false) (some (error_code duplicate_share))
      ∷ []
unfolding new_stratum_client
answer_lem_example =
    answer_lem decode big_cents options algorithm settings login (some duplicate_share) 5 fresh
      answered answered_on

-- The second invalid share of a miner.
should_ban_lem_example :
    Judged big_cents settings none 50 miner (new_banning_manager 100) (codes "a:1") 120 (
      should_ban big_cents settings false 50
        (counting big_cents settings (false ∷ []) miner)
        (new_banning_manager 100))
unfolding remembered invalid_count
should_ban_lem_example =
    should_ban_lem big_cents settings false (false ∷ []) 50 miner (new_banning_manager 100)
      (codes "a:1") 120 (omega arith)

abbrev params : JobParams
params = get_job_params job true 100

broadcast_lem_example :
    (broadcast_current_mining_job big_cents settings params 1000000000000 (miner ∷ [])
      ≡ (goes_on, map (told big_cents settings params 1000000000000) (miner ∷ [])))
    × (broadcast_current_mining_job big_cents settings params 1000000000000
          (miner ∷ record miner { last_activity = 0 } ∷ miner ∷ [])
        ≡ (
          hangs,
          map (told big_cents settings params 1000000000000) (miner ∷ [])
              ++ (record miner { last_activity = 0; socket_open = false } ∷ miner ∷ []),
        ))
unfolding is_idle new_stratum_client
broadcast_lem_example =
    broadcast_lem big_cents settings params 1000000000000 (miner ∷ [])
      (record miner { last_activity = 0 }) (miner ∷ []) (refl, tt) refl
