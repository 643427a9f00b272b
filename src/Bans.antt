-- ===== src/Bans.antt =====
-- bans/banning.go: the list of banned addresses. Times are nanoseconds of Go's monotonic clock, so
-- that `time.Since` is never negative, and `ban_time` is Options.Time in nanoseconds.
pub mod Laws
use not_only_mining_pool.Common.{
  ℕ, ◌-◌, Bool, true, false, Option, none, some, List, [], ◌∷◌, Bytes, ltb, if◌then◌else◌,
}
use not_only_mining_pool.Common.Dict.{Dict, lookup, insert, delete}

pub record BanningManager : Type 0 where
  pub ban_time : ℕ
  pub banned_ip_list : Dict ℕ

-- NewBanningManager
unfoldable pub new_banning_manager : ℕ → BanningManager
new_banning_manager ban_time = record { ban_time = ban_time; banned_ip_list = [] }

-- The loop of Init over the list, at one tick.
unfoldable pub purge_entries : ℕ → ℕ → Dict ℕ → Dict ℕ
purge_entries ban_time now [] = []
purge_entries ban_time now ((ip, t) ∷ m) =
    if ltb ban_time (now - t)
    then purge_entries ban_time now m
    else (ip, t) ∷ purge_entries ban_time now m

unfoldable pub purge : BanningManager → ℕ → BanningManager
unfolding purge_entries
purge bm now = record bm { banned_ip_list = purge_entries bm.ban_time now bm.banned_ip_list }

-- CheckBan: whether the socket should be closed. `timeLeft > 0` says that less than the ban time has
-- gone by.
unfoldable pub check_ban : BanningManager → Bytes → ℕ → Bool × BanningManager
check_ban bm ip now = elim (lookup ip bm.banned_ip_list) [
  | none ↦ (false, bm)
  | some t ↦
      if ltb (now - t) bm.ban_time
      then (true, bm)
      else (false, record bm { banned_ip_list = delete ip bm.banned_ip_list })
]

-- AddBannedIP
unfoldable pub add_banned_ip : BanningManager → Bytes → ℕ → BanningManager
add_banned_ip bm ip now = record bm { banned_ip_list = insert ip now bm.banned_ip_list }
