-- ===== src/Bans/Laws.antt =====
-- Who is banned, and for how long.
use not_only_mining_pool.Common.{
  ℕ, ◌-◌, ◌≤◌, ◌<◌, ◌≡◌, refl, ◌⊎◌, inl, none, some, [], ◌∷◌, arith, Bytes, ltb, if◌then◌else◌,
  text_eq, text_eq_iff,
}
use not_only_mining_pool.Common.Dict.{Dict, Distinct, lookup, lookup-insert}
use not_only_mining_pool.Bans.{BanningManager, purge_entries, purge, check_ban, add_banned_ip}

-- After AddBannedIP, CheckBan answers that the address is banned while less than the ban time has gone by
-- since that ban, and no longer; the ban of one address changes no answer about another.
pub check_ban-add_banned_ip :
    (bm : BanningManager) (ip other : Bytes) (at now : ℕ)
    → (check_ban (add_banned_ip bm ip at) other now).0
      ≡ (if text_eq ip other then ltb (now - at) bm.ban_time else (check_ban bm other now).0)
unfolding check_ban add_banned_ip
check_ban-add_banned_ip bm ip other at now =
    ground (arith, lookup-insert ip other at bm.banned_ip_list)

lookup-purge_entries :
    (ban_time now : ℕ) (ip : Bytes) (m : Dict ℕ)
    → Distinct m
    → (lookup ip (purge_entries ban_time now m) ≡ lookup ip m)
      ⊎ ((t : ℕ) × (lookup ip m ≡ some t)
          × (lookup ip (purge_entries ban_time now m) ≡ none)
          × (ban_time < now - t))
unfolding purge_entries lookup
lookup-purge_entries ban_time now ip [] d = inl refl
lookup-purge_entries ban_time now ip ((j, t) ∷ m) d =
    ground (arith, text_eq_iff j ip, lookup-purge_entries ban_time now ip m d.1)

-- The purging ticker drops nothing that is still banned: at its tick and at every later time each
-- address gets the answer that it would get without it.
pub check_ban-purge :
    (bm : BanningManager) (ip : Bytes) (now later : ℕ)
    → Distinct bm.banned_ip_list
    → now ≤ later
    → (check_ban (purge bm now) ip later).0 ≡ (check_ban bm ip later).0
unfolding check_ban purge
check_ban-purge bm ip now later d h =
    ground (arith, lookup-purge_entries bm.ban_time now ip bm.banned_ip_list d)
