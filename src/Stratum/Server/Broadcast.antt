-- ===== src/Stratum/Server/Broadcast.antt =====
-- Whom a broadcast reaches.
use not_only_mining_pool.Common.{
  ℕ, ◌-◌, ◌*◌, ◌^◌, ◌≡◌, refl, Bool, true, false, List, [], ◌∷◌, ◌++◌, All, ltb, map,
}
use not_only_mining_pool.Common.Float.{Float64}
use not_only_mining_pool.Jobs.Params.{JobParams}
use not_only_mining_pool.Jobs.Share.{BigFloat}
use not_only_mining_pool.Stratum.Client.{
  goes_on, hangs, notify, Settings, Client, send, send_pending, send_mining_job,
}
use not_only_mining_pool.Stratum.Server.{behind, broadcast_current_mining_job}

module _ {fl : Float64} (bf : BigFloat fl) (settings : Settings bf) (params : JobParams)
    (now : ℕ) where
  -- A client is idle for longer than the connection timeout.
  unfoldable pub is_idle : Client bf → Bool
  is_idle c = ltb (settings.connection_timeout * 10 ^ 9) (now - c.last_activity)

  -- What a client is left with that is told.
  unfoldable pub told : Client bf → Client bf
  told c = send bf (notify params) (send_pending bf c)

  -- A broadcast gives the job to the clients in front of the first idle one. It closes that one's socket and
  -- hangs there: the clients behind it get nothing.
  pub broadcast_lem :
      (front : List (Client bf)) (idle : Client bf) (back : List (Client bf))
      → All (λ c. is_idle c ≡ false) front
      → is_idle idle ≡ true
      → (broadcast_current_mining_job bf settings params now front ≡ (goes_on, map told front))
        × (broadcast_current_mining_job bf settings params now (front ++ (idle ∷ back))
            ≡ (hangs, map told front ++ (record idle { socket_open = false } ∷ back)))
  unfolding broadcast_current_mining_job behind send_mining_job is_idle told
  broadcast_lem [] idle back all late = (refl, rw late refl)
  broadcast_lem (c ∷ front) idle back all late =
      let (some_told, stuck) = broadcast_lem front idle back all.1 late in
      rw (all.0, some_told, stuck) (refl, refl)
