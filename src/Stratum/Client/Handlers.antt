-- ===== src/Stratum/Client/Handlers.antt =====
-- stratum/client.go: what the pool does with a miner's messages. `none` is a panic, and so is a submission
-- while CurrentDifficulty is nil, which no authorized client's is.
use not_only_mining_pool.Common.{
  ℕ, ◌/◌, ◌^◌, Bool, true, false, not, Option, none, some, List, [], ◌∷◌, Bytes, codes,
  if◌then◌else◌, text_eq,
}
use not_only_mining_pool.Common.Fallible.{◌>>=◌}
use not_only_mining_pool.Common.Float.{Float64}
use not_only_mining_pool.Bans.{BanningManager}
use not_only_mining_pool.Jobs.Params.{get_job_params}
use not_only_mining_pool.Jobs.Share.{
  ShareError, low_diff_share, n_time_out_of_range, error_code, BigFloat, Share,
}
use not_only_mining_pool.Jobs.Manager.{Options, JobManager, current}
use not_only_mining_pool.Jobs.Process.{Replies, process_share}
use not_only_mining_pool.Jobs.Submit.{Algorithm, Submission, process_submit}
use not_only_mining_pool.Stratum.Client.{
  Flow, goes_on, hangs, null, subscription, truth, response, set_difficulty, Request, Settings,
  Client, send, send_difficulty, send_pending, should_ban, send_mining_job, retarget_client,
}

unfoldable pub is_low_diff : Option ShareError → Bool
is_low_diff (some low_diff_share) = true
is_low_diff _ = false

unfoldable pub is_out_of_range : Option ShareError → Bool
is_out_of_range (some n_time_out_of_range) = true
is_out_of_range _ = false

unfoldable pub is_valid : Option ShareError → Bool
is_valid none = true
is_valid (some e) = false

module _ (decode : Bytes → Option Bytes) {fl : Float64} (bf : BigFloat fl) where
  open bf use {B, of_float, to_float}

  module _ (opts : Options decode fl) (alg : Algorithm) (settings : Settings bf) where
    -- A client with the pool's jobs and bans, and what was given to PutShare, newest first.
    pub record Session : Type 0 where
      pub client : Client bf
      pub jobs : JobManager decode fl
      pub bans : BanningManager
      pub stored : List (Share fl × Bool)

    -- HandleSubscribe
    unfoldable pub handle_subscribe : Request bf → Client bf → Client bf
    unfolding send
    handle_subscribe m c =
        let c' = if c.is_authorized then c else record c { subscription_before_auth = true } in
        let nonce : Bytes = elim c.extra_nonce1 [ none ↦ [] | some n ↦ n ] in
        send bf (response m.id (subscription c.subscription_id nonce opts.extra_nonce2_size) none)
          c'

    -- HandleAuthorize with a reply, behind the test of its parameters; AuthorizeFn lets everyone in.
    unfoldable pub let_in : Request bf → Bytes → Bytes → ℕ → Session → Option (Flow × Session)
    unfolding send send_difficulty send_mining_job current
    let_in m name pass now s =
        let c = record s.client { worker_name = name; worker_pass = pass; is_authorized = true } in
        let told =
          send_difficulty bf (of_float settings.initial_diff)
            (send bf (response m.id (truth true) none) c) in
        do
          job ← current decode fl opts s.jobs
          let (flow, c') =
              send_mining_job bf settings (get_job_params job true (now / 10 ^ 9)) now told
          some (flow, record s { client = c' })

    unfoldable pub names_of : List Bytes → Option (Bytes × Bytes)
    names_of (name ∷ pass ∷ rest) = some (name, pass)
    names_of _ = none

    -- HandleAuthorize
    unfoldable pub handle_authorize : Request bf → ℕ → Session → Option (Flow × Session)
    unfolding let_in names_of
    handle_authorize m now s = elim (names_of m.params) [
      | none ↦ some (goes_on, s)
      | some (name, pass) ↦ let_in m name pass now s
    ]

    -- A submission that is refused before it is looked at.
    unfoldable pub refuse : Request bf → ℕ → ℕ → Session → Flow × Session
    unfolding send should_ban
    refuse m code now s =
        let (flow, c, bm) =
          should_ban bf settings false now (send bf (response m.id null (some code)) s.client)
            s.bans in
        (flow, record s { client = c; bans = bm })

    -- The end of HandleSubmit: the ban, and then the answers.
    unfoldable pub answer : Request bf → Option ShareError → ℕ → Session → Flow × Session
    unfolding send should_ban is_valid
    answer m error now s =
        let (flow, c, bm) = should_ban bf settings (is_valid error) now s.client s.bans in
        let refused : Client bf = elim error [
          | none ↦ c
          | some e ↦ send bf (response m.id (truth false) (some (error_code e))) c
        ] in
        let answered = send bf (response m.id (truth true) none) refused in
        elim flow [
          | goes_on ↦ (goes_on, record s { client = answered; bans = bm })
          | hangs ↦ (hangs, record s { client = c; bans = bm })
        ]

    -- What HandleSubmit tells the miner about the share: its difficulty, or the current job.
    unfoldable pub remind :
        Option ShareError → ℕ → JobManager decode fl → B → Client bf → Option (Flow × Client bf)
    unfolding is_low_diff is_out_of_range send send_mining_job
    remind error now jm diff c =
        let c' = if is_low_diff error then send bf (set_difficulty (to_float diff)) c else c in
        let sent = (do
          job ← current decode fl opts jm
          some (send_mining_job bf settings (get_job_params job true (now / 10 ^ 9)) now c')) in
        if is_out_of_range error then sent else some (goes_on, c')

    -- The rest of HandleSubmit behind that: the difficulty and the end.
    unfoldable pub settle_submit :
        Request bf → Option ShareError → ℕ → Session → Flow × Client bf → Option (Flow × Session)
    unfolding retarget_client send_pending answer
    settle_submit m error now s (hangs, c) = some (hangs, record s { client = c })
    settle_submit m error now s (goes_on, c) = do
      diff ← c.current_difficulty
      some (
          answer m error now
            (record s { client = send_pending bf (retarget_client bf settings diff now c) }))

    -- HandleSubmit from ProcessSubmit on.
    unfoldable pub judge_submit :
        Request bf → Submission decode bf opts alg → Replies → ℕ → Session → Option (Flow × Session)
    unfolding process_submit process_share remind settle_submit
    judge_submit m sub r now s = do
      diff ← s.client.current_difficulty
      (share, jm) ←
          process_submit decode bf opts alg s.jobs sub s.client.previous_difficulty diff
            (now / 10 ^ 9)
      (put, jm') ← process_share decode fl opts jm share r (now / 10 ^ 9)
      reminded ← remind share.error now jm' diff s.client
      settle_submit m share.error now (record s { jobs = jm'; stored = put ∷ s.stored }) reminded

    -- The five texts of a submission, if there are so many.
    unfoldable pub submission_of : Bytes → List Bytes → Option (Submission decode bf opts alg)
    submission_of nonce1 (worker ∷ job_id ∷ nonce2 ∷ n_time ∷ nonce ∷ rest) = some (record {
      job_id = job_id;
      extra_nonce1 = nonce1;
      extra_nonce2 = nonce2;
      n_time = n_time;
      nonce = nonce;
      worker = worker;
    })
    submission_of nonce1 _ = none

    -- HandleSubmit
    unfoldable pub handle_submit : Request bf → Replies → ℕ → Session → Option (Flow × Session)
    unfolding refuse judge_submit submission_of
    handle_submit m r now s =
        if not s.client.is_authorized
        then some (refuse m 24 now s)
        else (elim s.client.extra_nonce1 [
          | none ↦ some (refuse m 25 now s)
          | some nonce1 ↦ elim (submission_of nonce1 m.params) [
            | none ↦ some (refuse m 24 now s)
            | some sub ↦ judge_submit m sub r now s
          ]
        ])

    -- HandleMessage
    unfoldable pub handle_message : Request bf → Replies → ℕ → Session → Option (Flow × Session)
    unfolding handle_subscribe handle_authorize handle_submit send
    handle_message m r now s =
        let submitted =
          handle_submit m r now (record s { client = record s.client { last_activity = now } }) in
        let authorized = handle_authorize m now s in
        if text_eq m.method (codes "mining.subscribe")
        then some (goes_on, record s { client = handle_subscribe m s.client })
        else if text_eq m.method (codes "mining.authorize")
        then authorized
        else if text_eq m.method (codes "mining.submit")
        then submitted
        else if text_eq m.method (codes "mining.get_transactions")
        then some (goes_on, record s { client = send bf (response (codes "0") null none) s.client })
        else some (goes_on, s)
