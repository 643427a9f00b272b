-- ===== src/Stratum/Client/Announced.antt =====
-- stratum/client.go: what a client was told of its difficulty, handler by handler.
use mathlib.Core.Option
use not_only_mining_pool.Common.{
  ℕ, ◌*◌, ◌-◌, ◌/◌, ◌^◌, ◌≡◌, refl, subst, ◌⊎◌, inl, inr, Bool, true, false, Option, none, some,
  List, [], ◌∷◌, Bytes, arith, if◌then◌else◌, ltb, Bool-cases, Option-cases,
}
use not_only_mining_pool.Common.Fallible.{>>=-eq-some}
use not_only_mining_pool.Common.Float.{Float64}
use not_only_mining_pool.Bans.{BanningManager}
use not_only_mining_pool.Jobs.Params.{JobParams, get_job_params}
use not_only_mining_pool.Jobs.Share.{ShareError, error_code, BigFloat}
use not_only_mining_pool.Jobs.Manager.{Options, JobManager, current}
use not_only_mining_pool.Jobs.Submit.{Algorithm}
use not_only_mining_pool.Stratum.Client.{
  Flow, goes_on, hangs, Answer, null, truth, Message, response, set_difficulty, notify, Request,
  Settings, Client, send, same_diff, send_difficulty, send_pending, should_ban, send_mining_job,
  retarget_client,
}
use not_only_mining_pool.Stratum.Client.Handlers.{
  is_valid, is_low_diff, is_out_of_range, Session, names_of, let_in, handle_authorize, refuse,
  answer, remind,
}

pub Flow-cases : (f : Flow) → (f ≡ goes_on) ⊎ (f ≡ hangs)
Flow-cases goes_on = inl refl
Flow-cases hangs = inr refl

pub second :
    {A B : Type 0} {a a' : A} {b b' : B}
    → ◌≡◌ {A = Option (A × B)} (some (a, b)) (some (a', b'))
    → b ≡ b'
second e = cc e

module _ {fl : Float64} (bf : BigFloat fl) where
  open fl use {F}
  open bf use {B, to_float}

  -- The difficulty announced last, of the messages newest first.
  unfoldable pub last_difficulty : List (Message bf) → Option F
  last_difficulty [] = none
  last_difficulty (set_difficulty f ∷ ms) = some f
  last_difficulty (response i a e ∷ ms) = last_difficulty ms
  last_difficulty (notify p ∷ ms) = last_difficulty ms

  -- CurrentDifficulty was announced last, and an authorized client has one.
  pub record Told (c : Client bf) : Type 0 where
    pub announced : last_difficulty c.sent ≡ Option.map to_float c.current_difficulty
    pub has_one : c.is_authorized ≡ true → (d : B) × (c.current_difficulty ≡ some d)

  send_difficulty-announced :
      (diff : B) (c : Client bf)
      → last_difficulty c.sent ≡ Option.map to_float c.current_difficulty
      → (last_difficulty (send_difficulty bf diff c).sent
          ≡ Option.map to_float (send_difficulty bf diff c).current_difficulty)
        × ((d : B) × ((send_difficulty bf diff c).current_difficulty ≡ some d))
  unfolding send_difficulty send last_difficulty
  send_difficulty-announced diff c t = elim (Option-cases c.current_difficulty) [
    | inl nil ↦ rw (nil, send_difficulty) (refl, (diff, refl))
    | inr (d, here) ↦ elim (Bool-cases (same_diff bf diff d)) [
      | inl same ↦ rw (here, same, send_difficulty) (t, (d, here))
      | inr new ↦ rw (here, new, send_difficulty) (refl, (diff, refl))
    ]
  ]

  send_difficulty-Told : (diff : B) (c : Client bf) → Told c → Told (send_difficulty bf diff c)
  send_difficulty-Told diff c t =
      let (a, b) = send_difficulty-announced diff c t.announced in
      record { announced = a; has_one = λ _. b }

  pub send_pending-Told : (c : Client bf) → Told c → Told (send_pending bf c)
  unfolding send_pending
  send_pending-Told c t = elim (Option-cases c.pending_difficulty) [
    | inl nil ↦ rw (nil, send_pending) t
    | inr (d, here) ↦ elim (Bool-cases (same_diff bf d (bf.of_float (fl.of_nat 0)))) [
      | inl zero_diff ↦ rw (here, zero_diff, send_pending) t
      | inr new ↦
          let t' = send_difficulty-Told d c t in
          rw (here, new, send_pending) (record { announced = t'.announced; has_one = t'.has_one })
    ]
  ]

  module _ (settings : Settings bf) where
    pub send_mining_job-Told :
        (params : JobParams) (now : ℕ) (c : Client bf)
        → Told c
        → Told (send_mining_job bf settings params now c).1
    unfolding send_mining_job send last_difficulty
    send_mining_job-Told params now c t =
        let t' = send_pending-Told c t in
        elim (Bool-cases (ltb (settings.connection_timeout * 10 ^ 9) (now - c.last_activity))) [
          | inl late ↦ rw late (record { announced = t.announced; has_one = t.has_one })
          | inr in_time ↦ rw in_time (record { announced = t'.announced; has_one = t'.has_one })
        ]

    should_ban-Told :
        (valid : Bool) (now : ℕ) (c : Client bf) (bm : BanningManager)
        → Told c
        → Told (should_ban bf settings valid now c bm).1
    unfolding should_ban
    should_ban-Told true now c bm t = record { announced = t.announced; has_one = t.has_one }
    should_ban-Told false now c bm t = ground (arith, t.announced, t.has_one)

    pub retarget_client-Told :
        (diff : B) (now : ℕ) (c : Client bf)
        → Told c
        → Told (retarget_client bf settings diff now c)
    unfolding retarget_client
    retarget_client-Told diff now c t = ground (arith, t.announced, t.has_one)

  pub send-Told :
      (i : Bytes) (a : Answer) (e : Option ℕ) (c : Client bf)
      → Told c
      → Told (send bf (response i a e) c)
  unfolding send last_difficulty
  send-Told i a e c t = record { announced = t.announced; has_one = t.has_one }

module _ (decode : Bytes → Option Bytes) {fl : Float64} (bf : BigFloat fl) where
  open bf use {B, to_float, of_float}

  module _ (opts : Options decode fl) (alg : Algorithm) (settings : Settings bf) where
    pub refuse-Told :
        (m : Request bf) (code now : ℕ) (s : Session decode bf opts alg settings)
        → Told bf s.client
        → Told bf (refuse decode bf opts alg settings m code now s).1.client
    unfolding refuse
    refuse-Told m code now s t =
        should_ban-Told bf settings false now (send bf (response m.id null (some code)) s.client)
          s.bans (send-Told bf m.id null (some code) s.client t)

    pub answer-Told :
        (m : Request bf) (error : Option ShareError) (now : ℕ)
        (s : Session decode bf opts alg settings)
        → Told bf s.client
        → Told bf (answer decode bf opts alg settings m error now s).1.client
    unfolding answer is_valid
    answer-Told m none now s t =
        send-Told bf m.id (truth true) none _
          (should_ban-Told bf settings true now s.client s.bans t)
    answer-Told m (some e) now s t =
        let banned = should_ban-Told bf settings false now s.client s.bans t in
        elim (Flow-cases (should_ban bf settings false now s.client s.bans).0) [
          | inr stuck ↦ rw (stuck, answer) banned
          | inl on ↦
              rw (on, answer)
                (send-Told bf m.id (truth true) none _
                  (send-Told bf m.id (truth false) (some (error_code e)) _ banned))
        ]

    pub remind-Told :
        (error : Option ShareError) (now : ℕ) (jm : JobManager decode fl) (d : B) (c c' : Client bf)
        (flow : Flow)
        → Told bf c
        → c.current_difficulty ≡ some d
        → remind decode bf opts alg settings error now jm d c ≡ some (flow, c')
        → Told bf c'
    unfolding remind send last_difficulty
    remind-Told error now jm d c c' flow t here e =
        let warned = warned-Told (is_low_diff error) in
        elim (Bool-cases (is_out_of_range error)) [
          | inr in_range ↦ subst (Told bf) (second (rw in_range at e)) warned
          | inl out ↦
              let (job, found, last) = >>=-eq-some (current decode fl opts jm) _ (rw out at e) in
              subst (Told bf) (second last) (
                send_mining_job-Told bf settings (get_job_params job true (now / 10 ^ 9)) now _
                  warned)
        ]
      where
        warned-Told :
            (low : Bool) → Told bf (if low then send bf (set_difficulty (to_float d)) c else c)
        warned-Told true = record { announced = rw here refl; has_one = t.has_one }
        warned-Told false = t

    let_in-Told :
        (m : Request bf) (name pass : Bytes) (now : ℕ) (s s' : Session decode bf opts alg settings)
        (flow : Flow)
        → Told bf s.client
        → let_in decode bf opts alg settings m name pass now s ≡ some (flow, s')
        → Told bf s'.client
    unfolding let_in send last_difficulty
    let_in-Told m name pass now s s' flow t e =
        let c = record s.client { worker_name = name; worker_pass = pass; is_authorized = true } in
        let (announced, one) =
          send_difficulty-announced bf (of_float settings.initial_diff)
            (send bf (response m.id (truth true) none) c) t.announced in
        let (job, found, last) = >>=-eq-some (current decode fl opts s.jobs) _ e in
        subst (λ (x : Session decode bf opts alg settings). Told bf x.client) (second last)
          (send_mining_job-Told bf settings (get_job_params job true (now / 10 ^ 9)) now _
            (record { announced = announced; has_one = λ _. one }))

    pub handle_authorize-Told :
        (m : Request bf) (now : ℕ) (s s' : Session decode bf opts alg settings) (flow : Flow)
        → Told bf s.client
        → handle_authorize decode bf opts alg settings m now s ≡ some (flow, s')
        → Told bf s'.client
    unfolding handle_authorize
    handle_authorize-Told m now s s' flow t e =
        elim (Option-cases (names_of decode bf opts alg settings m.params)) [
          | inl few ↦
              subst (λ (x : Session decode bf opts alg settings). Told bf x.client)
                (second (rw (few, handle_authorize) at e)) t
          | inr (names, found) ↦
              let_in-Told m names.0 names.1 now s s' flow t (rw (found, handle_authorize) at e)
        ]
