-- ===== src/Vardiff/Retarget.antt =====
-- vardiff/vardiff.go: when a client's difficulty is changed, and to what. Times are in seconds, of a clock
-- that does not run backwards. A zero difficulty stands for no change.
pub mod Spacing
use not_only_mining_pool.Common.{
  ℕ, ◌+◌, ◌-◌, ◌*◌, ◌/◌, ◌^◌, Bool, true, false, not, ◌&&◌, Option, none, some, ltb, ◌==◌,
  if◌then◌else◌,
}
use not_only_mining_pool.Common.Float.{Float64}
use not_only_mining_pool.Vardiff.RingBuffer.{RingBuffer, new_ring_buffer, append, size, clear, avg}

module _ (fl : Float64) where
  open fl use {F, of_nat, add, sub, mul, div, lt, le}

  -- VarDiffOptions
  pub record VarDiffOptions : Type 0 where
    pub min_diff : F
    pub max_diff : F
    pub target_time : ℕ
    pub retarget_time : ℕ
    pub variance_percent : F
    pub x2_mode : Bool

  pub record VarDiff : Type 0 where
    pub options : VarDiffOptions
    pub max_target_time : F
    pub min_target_time : F
    pub time_buffer : RingBuffer ℕ
    pub last_rtc : ℕ
    pub last_timestamp : ℕ

  -- NewVarDiff; a target time of zero is a division by zero, which panics.
  unfoldable pub new_var_diff : VarDiffOptions → ℕ → Option VarDiff
  new_var_diff options now =
      if options.target_time == 0
      then none
      else some (record {
        options = options;
        max_target_time =
            mul (of_nat options.target_time) (add (of_nat 1) options.variance_percent);
        min_target_time =
            mul (of_nat options.target_time) (sub (of_nat 1) options.variance_percent);
        time_buffer = new_ring_buffer (options.retarget_time / options.target_time * 4);
        last_rtc = now - options.retarget_time / 2;
        last_timestamp = now;
      })

  -- The factor by which the difficulty changes: `none` if it stays. It is a duration in nanoseconds over
  -- an average in seconds.
  unfoldable pub change_factor : VarDiff → F → F → Option F
  change_factor vd average current_diff =
      let o = vd.options in
      let ddiff = div (of_nat (o.target_time * 10 ^ 9)) average in
      let slower = if o.x2_mode then div (of_nat 1) (of_nat 2) else ddiff in
      let faster = if o.x2_mode then of_nat 2 else ddiff in
      if lt vd.max_target_time average && lt o.min_diff current_diff
      then some
          (if lt (mul slower current_diff) o.min_diff then div o.min_diff current_diff else slower)
      else if lt average vd.min_target_time
      then some
          (if lt o.max_diff (mul faster current_diff) then div o.max_diff current_diff else faster)
      else none

  -- The end of CalcNextDiff, once enough time has gone by; the interval is in the buffer already.
  unfoldable pub retarget : VarDiff → F → ℕ → F × VarDiff
  unfolding change_factor
  retarget vd current_diff now =
      let vd' = record vd { last_rtc = now } in
      elim (change_factor vd' (avg fl vd'.time_buffer) current_diff) [
        | none ↦ (current_diff, vd')
        | some ddiff ↦
            let new_diff = mul current_diff ddiff in
            (
              if le new_diff (of_nat 0) then current_diff else new_diff,
              record vd' { time_buffer = clear vd'.time_buffer },
            )
      ]

  -- CalcNextDiff
  unfoldable pub calc_next_diff : VarDiff → F → ℕ → F × VarDiff
  unfolding retarget
  calc_next_diff vd current_diff now =
      if vd.last_rtc == 0
      then (
        of_nat 0,
        record vd { last_rtc = now - vd.options.retarget_time / 2; last_timestamp = now },
      )
      else let vd' = record vd {
        time_buffer = append vd.time_buffer (now - vd.last_timestamp);
        last_timestamp = now;
      } in
        if ltb (now - vd.last_rtc) vd.options.retarget_time && ltb 0 (size vd'.time_buffer)
        then (of_nat 0, vd')
        else retarget vd' current_diff now
