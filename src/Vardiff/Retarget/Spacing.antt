-- ===== src/Vardiff/Retarget/Spacing.antt =====
-- vardiff/vardiff.go: when CalcNextDiff changes the difficulty.
use not_only_mining_pool.Common.{
  ℕ, ◌-◌, ◌≤◌, ◌<◌, ◌≡◌, refl, ◌⊎◌, inl, inr, Bool, false, arith, ltb, ◌==◌, ◌&&◌, Bool-cases,
  Option-cases,
}
use not_only_mining_pool.Common.Float.{Float64}
use not_only_mining_pool.Vardiff.RingBuffer.{RingBuffer, append, size, avg}
use not_only_mining_pool.Vardiff.RingBuffer.Window.{IsValid, append-IsValid, clear-IsValid}
use not_only_mining_pool.Vardiff.Retarget.{VarDiff, change_factor, retarget, calc_next_diff}

module _ (fl : Float64) where
  open fl use {F, of_nat}

  -- A client's state between shares.
  pub record Ready (vd : VarDiff fl) : Type 0 where
    pub started : 0 < vd.last_rtc
    pub buffer : IsValid vd.time_buffer

  -- After an interval was appended, a valid buffer is not empty.
  size-append-pos : (rb : RingBuffer ℕ) (x : ℕ) → IsValid rb → 0 < size (append rb x)
  unfolding size append
  size-append-pos rb x v = elim (Bool-cases rb.is_full) [
    | inl full ↦ rw full v.room
    | inr grows ↦ ground (arith, v.room, grows)
  ]

  retarget_step :
      (vd : VarDiff fl) (cur : F) (now : ℕ)
      → IsValid vd.time_buffer
      → ((retarget fl vd cur now).1.last_rtc ≡ now)
        × ((retarget fl vd cur now).1.options ≡ vd.options)
        × IsValid (retarget fl vd cur now).1.time_buffer
  unfolding retarget
  retarget_step vd cur now v =
      elim (Option-cases
        (change_factor fl (record vd { last_rtc = now }) (avg fl vd.time_buffer) cur)) [
          | inl keep ↦ rw (keep, retarget) (refl, refl, v)
          | inr (d, change) ↦ rw (change, retarget) (refl, refl, (clear-IsValid vd.time_buffer v).0)
        ]

  -- A share after which the last change is too recent, and one after which it is not.
  abbrev early : VarDiff fl → ℕ → Bool
  early vd now =
      ltb (now - vd.last_rtc) vd.options.retarget_time
      && ltb 0 (size (append vd.time_buffer (now - vd.last_timestamp)))

  -- At a share of a client whose state is ready, the difficulty is left alone, and the time of its last
  -- change with it, if less than RetargetTime has gone by since that time; otherwise that time becomes
  -- the share's. The options stay, and the buffer stays valid.
  pub calc_next_diff_lem :
      (vd : VarDiff fl) (cur : F) (now : ℕ)
      → Ready vd
      → (((now - vd.last_rtc < vd.options.retarget_time)
            × ((calc_next_diff fl vd cur now).0 ≡ of_nat 0)
            × ((calc_next_diff fl vd cur now).1.last_rtc ≡ vd.last_rtc))
          ⊎ ((vd.options.retarget_time ≤ now - vd.last_rtc)
              × ((calc_next_diff fl vd cur now).1.last_rtc ≡ now)))
        × ((calc_next_diff fl vd cur now).1.options ≡ vd.options)
        × IsValid (calc_next_diff fl vd cur now).1.time_buffer
  unfolding calc_next_diff
  calc_next_diff_lem vd cur now r =
      let v = append-IsValid vd.time_buffer (now - vd.last_timestamp) r.buffer in
      let full = size-append-pos vd.time_buffer (now - vd.last_timestamp) r.buffer in
      let awake : (vd.last_rtc == 0) ≡ false = ground (arith, r.started) in
      elim (Bool-cases (early vd now)) [
        | inl soon ↦ rw (awake, soon) (inl (ground (arith, soon), refl, refl), refl, v)
        | inr late ↦
            let step =
              retarget_step
                (record vd {
                  time_buffer = append vd.time_buffer (now - vd.last_timestamp);
                  last_timestamp = now;
                })
                cur now v in
            rw (awake, late) (inr (ground (arith, late, full), step.0), step.1, step.2)
      ]
