-- ===== src/Stratum/Client/Connection.antt =====
-- A client from its connection on, through its messages and the jobs that are broadcast to it.
use not_only_mining_pool.Common.{
  ℕ, ◌/◌, ◌^◌, ◌≡◌, refl, subst, Bool, true, false, not, Option, none, some, List, ◌∷◌, Bytes,
  codes, if◌then◌else◌, text_eq,
}
use not_only_mining_pool.Common.Fallible.{>>=-eq-some}
use not_only_mining_pool.Common.Float.{Float64}
use not_only_mining_pool.Vardiff.Retarget.{VarDiff}
use not_only_mining_pool.Bans.{BanningManager}
use not_only_mining_pool.Jobs.Params.{JobParams}
use not_only_mining_pool.Jobs.Share.{Share, ShareError, BigFloat}
use not_only_mining_pool.Jobs.Manager.{Options, JobManager}
use not_only_mining_pool.Jobs.Process.{Replies, process_share}
use not_only_mining_pool.Jobs.Submit.{Algorithm, Submission, process_submit}
use not_only_mining_pool.Stratum.Client.{
  Flow, goes_on, hangs, null, Request, Settings, Client, new_stratum_client, send_pending,
  send_mining_job, retarget_client,
}
use not_only_mining_pool.Stratum.Client.Handlers.{
  Session, handle_subscribe, refuse, answer, remind, settle_submit, judge_submit, submission_of,
  handle_submit, handle_message,
}
use not_only_mining_pool.Stratum.Client.Announced.{
  last_difficulty, Told, send-Told, send_pending-Told, send_mining_job-Told, retarget_client-Told,
  refuse-Told, answer-Told, remind-Told, handle_authorize-Told,
}

module _ (decode : Bytes → Option Bytes) {fl : Float64} (bf : BigFloat fl) where
  open bf use {B, to_float}

  module _ (opts : Options decode fl) (alg : Algorithm) (settings : Settings bf) where
    -- A step keeps what the client was told.
    abbrev Keeps :
        Session decode bf opts alg settings
        → Option (Flow × Session decode bf opts alg settings)
        → Type 0
    Keeps s none = Unit {0}
    Keeps s (some (flow, s')) = Told bf s'.client

    Keeps-some :
        (s : Session decode bf opts alg settings)
        (r : Option (Flow × Session decode bf opts alg settings))
        → ((flow : Flow) (s' : Session decode bf opts alg settings)
            → r ≡ some (flow, s')
            → Told bf s'.client)
        → Keeps s r
    Keeps-some s none h = tt
    Keeps-some s (some (flow, s')) h = h flow s' refl

    settle_submit-Keeps :
        (m : Request bf) (error : Option ShareError) (now : ℕ)
        (s : Session decode bf opts alg settings) (flow : Flow) (c : Client bf)
        → Told bf c
        → Keeps s (settle_submit decode bf opts alg settings m error now s (flow, c))
    unfolding settle_submit
    settle_submit-Keeps m error now s hangs c t = t
    settle_submit-Keeps m error now s goes_on c t = Keeps-some s _ λ flow s' e.
        let (d, _, last) = >>=-eq-some c.current_difficulty _ e in
        let s1 : Session decode bf opts alg settings = record s {
          client = send_pending bf (retarget_client bf settings d now c);
        } in
        let same : answer decode bf opts alg settings m error now s1 ≡ (flow, s') = cc last in
        subst (λ (x : Flow × Session decode bf opts alg settings). Told bf x.1.client) same
          (answer-Told decode bf opts alg settings m error now s1
            (send_pending-Told bf _ (retarget_client-Told bf settings d now c t)))

    judge_submit-Keeps :
        (m : Request bf) (sub : Submission decode bf opts alg) (r : Replies) (now : ℕ)
        (s : Session decode bf opts alg settings)
        → Told bf s.client
        → Keeps s (judge_submit decode bf opts alg settings m sub r now s)
    unfolding judge_submit
    judge_submit-Keeps m sub r now s t = Keeps-some s _ λ flow s' e.
        let (diff, here, e1) = >>=-eq-some s.client.current_difficulty _ e in
        let (judged, _, e2) =
          >>=-eq-some
            (process_submit decode bf opts alg s.jobs sub s.client.previous_difficulty diff
              (now / 10 ^ 9))
            _ e1 in
        let (put, _, e3) =
          >>=-eq-some (process_share decode fl opts judged.1 judged.0 r (now / 10 ^ 9)) _ e2 in
        let (reminded, told, e4) =
          >>=-eq-some (remind decode bf opts alg settings judged.0.error now put.1 diff s.client) _
            e3 in
        let t' =
          remind-Told decode bf opts alg settings judged.0.error now put.1 diff s.client reminded.1
            reminded.0 t here told in
        let s1 = record s { jobs = put.1; stored = put.0 ∷ s.stored } in
        subst (Keeps s) e4 (settle_submit-Keeps m judged.0.error now s1 reminded.0 reminded.1 t')

    if_Keeps :
        (s : Session decode bf opts alg settings) (b : Bool)
        (p q : Option (Flow × Session decode bf opts alg settings))
        → Keeps s p
        → Keeps s q
        → Keeps s (if b then p else q)
    if_Keeps s true p q hp hq = hp
    if_Keeps s false p q hp hq = hq

    handle_submit-Keeps :
        (m : Request bf) (r : Replies) (now : ℕ) (s : Session decode bf opts alg settings)
        → Told bf s.client
        → Keeps s (handle_submit decode bf opts alg settings m r now s)
    unfolding handle_submit
    handle_submit-Keeps m r now s t =
        if_Keeps s (not s.client.is_authorized) _ _
          (refuse-Told decode bf opts alg settings m 24 now s t) (nonce s.client.extra_nonce1)
      where
        nonce :
            (n : Option Bytes)
            → Keeps s (elim n as (λ _. Option (Flow × Session decode bf opts alg settings)) [
              | none ↦ some (refuse decode bf opts alg settings m 25 now s)
              | some nonce1 ↦ elim (submission_of decode bf opts alg settings nonce1 m.params) [
                | none ↦ some (refuse decode bf opts alg settings m 24 now s)
                | some sub ↦ judge_submit decode bf opts alg settings m sub r now s
              ]
            ])
        nonce none = refuse-Told decode bf opts alg settings m 25 now s t
        nonce (some n) = fields (submission_of decode bf opts alg settings n m.params)
          where
            fields :
                (o : Option (Submission decode bf opts alg))
                → Keeps s (elim o as (λ _. Option (Flow × Session decode bf opts alg settings)) [
                  | none ↦ some (refuse decode bf opts alg settings m 24 now s)
                  | some sub ↦ judge_submit decode bf opts alg settings m sub r now s
                ])
            fields none = refuse-Told decode bf opts alg settings m 24 now s t
            fields (some sub) = judge_submit-Keeps m sub r now s t

    handle_message-Keeps :
        (m : Request bf) (r : Replies) (now : ℕ) (s : Session decode bf opts alg settings)
        → Told bf s.client
        → Keeps s (handle_message decode bf opts alg settings m r now s)
    unfolding handle_message handle_subscribe
    handle_message-Keeps m r now s t =
        if_Keeps s (text_eq m.method (codes "mining.subscribe")) _ _
          (send-Told bf m.id _ none _ (noted s.client.is_authorized))
          (if_Keeps s (text_eq m.method (codes "mining.authorize")) _ _
            (Keeps-some s _
              λ flow s' e. handle_authorize-Told decode bf opts alg settings m now s s' flow t e)
            (if_Keeps s (text_eq m.method (codes "mining.submit")) _ _
              (handle_submit-Keeps m r now _
                (record { announced = t.announced; has_one = t.has_one }))
              (if_Keeps s (text_eq m.method (codes "mining.get_transactions")) _ _
                (send-Told bf (codes "0") null none s.client t) t)))
      where
        noted :
            (b : Bool)
            → Told bf (if b then s.client else record s.client { subscription_before_auth = true })
        noted true = t
        noted false = record { announced = t.announced; has_one = t.has_one }

    -- A connection: a new client of the pool, the messages that it sends, and the jobs that are broadcast
    -- to it, with anything that other clients do to the jobs and the bans in between.
    pub data Connection : Session decode bf opts alg settings → Type 0 where
      connected :
          {jobs : JobManager decode fl} {bans : BanningManager} {stored : List (Share fl × Bool)}
          (subscription_id : ℕ) (remote_address extra_nonce1 : Bytes)
          (var_diff : Option (VarDiff fl)) (now : ℕ)
          → Connection (record {
            client = new_stratum_client bf subscription_id remote_address extra_nonce1 var_diff now;
            jobs = jobs;
            bans = bans;
            stored = stored;
          })
      received :
          {s s' : Session decode bf opts alg settings} {flow : Flow} (m : Request bf) (r : Replies)
          (now : ℕ)
          → Connection s
          → handle_message decode bf opts alg settings m r now s ≡ some (flow, s')
          → Connection s'
      broadcast :
          {s : Session decode bf opts alg settings} (params : JobParams) (now : ℕ)
          → Connection s
          → Connection (record s { client = (send_mining_job bf settings params now s.client).1 })
      others :
          {s : Session decode bf opts alg settings} (jobs : JobManager decode fl)
          (bans : BanningManager) (stored : List (Share fl × Bool))
          → Connection s
          → Connection (record s { jobs = jobs; bans = bans; stored = stored })

    -- At every point of a connection, CurrentDifficulty, against which the client's shares are held, is the
    -- difficulty that the last mining.set_difficulty on its socket announced, or nil if there was none; and
    -- an authorized client has one, so that ProcessSubmit is never called with a nil difficulty.
    pub Connection-Told :
        {s : Session decode bf opts alg settings} → Connection s → Told bf s.client
    unfolding new_stratum_client last_difficulty
    Connection-Told (connected id address nonce vd now) = record {
      announced = refl;
      has_one = λ e. cc e;
    }
    Connection-Told (received {s = s} m r now before e) =
        subst (Keeps s) e (handle_message-Keeps m r now s (Connection-Told before))
    Connection-Told (broadcast {s = s} params now before) =
        send_mining_job-Told bf settings params now s.client (Connection-Told before)
    Connection-Told (others jobs bans stored before) = Connection-Told before
