-- ===== src/Stratum/Client.antt =====
-- stratum/client.go and stratum/shares.go: a connected miner, in the mode without a mining engine. Times are
-- nanoseconds since 1970. The field SocketClosedEvent is never set outside of tests, and a send on a nil
-- channel blocks for ever: `hangs` says that the goroutine is stuck there.
pub mod Handlers
pub mod Announced
pub mod Connection
pub mod Answers
pub mod Shares
use mathlib.Core.Option
use not_only_mining_pool.Common.{
  ℕ, suc, ◌+◌, ◌-◌, ◌*◌, ◌/◌, ◌%◌, ◌^◌, Bool, true, false, not, ◌&&◌, ◌||◌, Option, none, some,
  List, [], ◌∷◌, Bytes, ltb, leb, if◌then◌else◌, text_eq,
}
use not_only_mining_pool.Common.Float.{Float64}
use not_only_mining_pool.Bans.{BanningManager, add_banned_ip}
use not_only_mining_pool.Vardiff.Retarget.{VarDiff, calc_next_diff}
use not_only_mining_pool.Jobs.Params.{JobParams}
use not_only_mining_pool.Jobs.Share.{BigFloat}

pub data Flow : Type 0 where
  goes_on hangs : Flow

-- The result of a response: null, a subscription with its number, its extra nonce and the size of the
-- second one, or a truth value.
pub data Answer : Type 0 where
  null : Answer
  subscription : ℕ → Bytes → ℕ → Answer
  truth : Bool → Answer

module _ {fl : Float64} (bf : BigFloat fl) where
  open fl use {F, div, lt}
  open bf use {B, of_float, less, to_float}

  -- What is written to the socket: a response with its id and error code, or a notification.
  pub data Message : Type 0 where
    response : Bytes → Answer → Option ℕ → Message
    set_difficulty : F → Message
    notify : JobParams → Message

  -- What is read of a request; `params` are the texts of ParamsArray.
  pub record Request : Type 0 where
    pub method : Bytes
    pub id : Bytes
    pub params : List Bytes

  -- The options of the pool and of the port that a client reads.
  pub record Settings : Type 0 where
    pub initial_diff : F
    pub check_threshold : ℕ
    pub invalid_percent : F
    pub connection_timeout : ℕ

  -- Client, with its Shares. `sent` is all that was written to the socket, newest first.
  pub record Client : Type 0 where
    pub subscription_id : ℕ
    pub remote_address : Bytes
    pub socket_open : Bool
    pub last_activity : ℕ
    pub valid : ℕ
    pub invalid : ℕ
    pub is_authorized : Bool
    pub subscription_before_auth : Bool
    pub extra_nonce1 : Option Bytes
    pub var_diff : Option (VarDiff fl)
    pub worker_name : Bytes
    pub worker_pass : Bytes
    pub pending_difficulty : Option B
    pub current_difficulty : Option B
    pub previous_difficulty : Option B
    pub sent : List Message

  -- NewStratumClient, with a job manager
  unfoldable pub new_stratum_client : ℕ → Bytes → Bytes → Option (VarDiff fl) → ℕ → Client
  new_stratum_client subscription_id remote_address extra_nonce1 var_diff now = record {
    subscription_id = subscription_id;
    remote_address = remote_address;
    socket_open = true;
    last_activity = now;
    valid = 0;
    invalid = 0;
    is_authorized = false;
    subscription_before_auth = false;
    extra_nonce1 = some extra_nonce1;
    var_diff = var_diff;
    worker_name = [];
    worker_pass = [];
    pending_difficulty = some (of_float (fl.of_nat 0));
    current_difficulty = none;
    previous_difficulty = none;
    sent = [];
  }

  -- SendJsonRPC
  unfoldable pub send : Message → Client → Client
  send m c = record c { sent = m ∷ c.sent }

  -- TotalShares and BadPercent; sums and products are uint64s.
  unfoldable pub total_shares : Client → ℕ
  total_shares c = (c.valid + c.invalid) % 2 ^ 64

  unfoldable pub bad_percent : Client → F
  unfolding total_shares
  bad_percent c = div (fl.of_nat (c.invalid * 100 % 2 ^ 64)) (fl.of_nat (total_shares c))

  -- `Cmp(d) == 0`
  unfoldable pub same_diff : B → B → Bool
  same_diff a b = not (less a b) && not (less b a)

  -- SendDifficulty; its result is only logged.
  unfoldable pub send_difficulty : B → Client → Client
  unfolding same_diff send
  send_difficulty diff c =
      let changed =
        send (set_difficulty (to_float diff)) (record c {
          previous_difficulty = c.current_difficulty;
          current_difficulty = some diff;
        }) in
      elim c.current_difficulty [
        | none ↦ changed
        | some current ↦ if same_diff diff current then c else changed
      ]

  -- The pending difficulty is sent, if it is not zero.
  unfoldable pub send_pending : Client → Client
  unfolding send_difficulty same_diff
  send_pending c = elim c.pending_difficulty [
    | none ↦ c
    | some diff ↦
        if same_diff diff (of_float (fl.of_nat 0))
        then c
        else record (send_difficulty diff c) { pending_difficulty = none }
  ]

  module _ (settings : Settings) where
    -- ShouldBan: it returns false, or hangs behind AddBannedIP.
    unfoldable pub should_ban : Bool → ℕ → Client → BanningManager → Flow × Client × BanningManager
    unfolding bad_percent total_shares
    should_ban true now c bm = (goes_on, record c { valid = (c.valid + 1) % 2 ^ 64 }, bm)
    should_ban false now c bm =
        let c' = record c { invalid = (c.invalid + 1) % 2 ^ 64 } in
        if leb settings.check_threshold (total_shares c')
        then (if lt (bad_percent c') settings.invalid_percent
            then (goes_on, record c' { valid = 0; invalid = 0 }, bm)
            else (hangs, c', add_banned_ip bm c.remote_address now))
        else (goes_on, c', bm)

    -- SendMiningJob
    unfoldable pub send_mining_job : JobParams → ℕ → Client → Flow × Client
    unfolding send_pending send
    send_mining_job params now c =
        if ltb (settings.connection_timeout * 10 ^ 9) (now - c.last_activity)
        then (hangs, record c { socket_open = false })
        else (goes_on, send (notify params) (send_pending c))

    -- The part of HandleSubmit on the difficulty: CalcNextDiff and EnqueueNextDifficulty. Two float64s that are
    -- numbers differ if one is less than the other.
    unfoldable pub retarget_client : B → ℕ → Client → Client
    retarget_client current now c = elim c.var_diff [
      | none ↦ c
      | some vd ↦
          let diff = to_float current in
          let (next, vd') = calc_next_diff fl vd diff (now / 10 ^ 9) in
          let c' = record c { var_diff = some vd' } in
          if (lt next diff || lt diff next) && (lt next (fl.of_nat 0) || lt (fl.of_nat 0) next)
          then record c' { pending_difficulty = some (of_float next) }
          else c'
    ]
