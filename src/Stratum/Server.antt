-- ===== src/Stratum/Server.antt =====
-- stratum/server.go: the clients of the pool, and the jobs that are broadcast to them. A map's clients come
-- in any order, so each list of them stands for one round.
pub mod Broadcast
use not_only_mining_pool.Common.{ℕ, ◌+◌, ◌-◌, ◌^◌, ◌==◌, List, [], ◌∷◌, ◌++◌, Bytes, if◌then◌else◌}
use not_only_mining_pool.Common.Float.{Float64}
use not_only_mining_pool.Jobs.Params.{JobParams}
use not_only_mining_pool.Jobs.Share.{BigFloat}
use not_only_mining_pool.Utils.Pack.{put_le}
use not_only_mining_pool.Stratum.Client.{Flow, goes_on, hangs, Settings, Client, send_mining_job}

-- SubscriptionCounter
pub record SubscriptionCounter : Type 0 where
  pub count : ℕ
  pub padding : Bytes

-- Next: the counter's next value, which is never the largest uint64, and the bytes of it.
unfoldable pub next : SubscriptionCounter → Bytes × SubscriptionCounter
next sc =
    let count = if sc.count + 1 == 2 ^ 64 - 1 then 0 else sc.count + 1 in
    (sc.padding ++ put_le 8 count, record sc { count = count })

module _ {fl : Float64} (bf : BigFloat fl) (settings : Settings bf) where
  -- What a round goes on with behind a client: the others, unless it hangs.
  unfoldable pub behind :
      Flow × Client bf → List (Client bf) → Flow × List (Client bf) → Flow × List (Client bf)
  behind (hangs, c) cs told = (hangs, c ∷ cs)
  behind (goes_on, c) cs told = (told.0, c ∷ told.1)

  -- BroadcastCurrentMiningJob
  unfoldable pub broadcast_current_mining_job :
      JobParams → ℕ → List (Client bf) → Flow × List (Client bf)
  unfolding behind
  broadcast_current_mining_job params now [] = (goes_on, [])
  broadcast_current_mining_job params now (c ∷ cs) =
      behind (send_mining_job bf settings params now c) cs
        (broadcast_current_mining_job params now cs)
