-- ===== src/Examples/Clients.antt =====
-- A list of bans, and the difficulty of a client with a share every ten seconds.
use not_only_mining_pool.Common.{
  ℕ, ◌-◌, ◌≡◌, ◌≤◌, ◌<◌, ◌⊎◌, refl, List, [], ◌∷◌, true, codes, arith, min, if◌then◌else◌,
}
use not_only_mining_pool.Common.Dict.{lookup}
use not_only_mining_pool.Common.Texts.{text_eq}
use not_only_mining_pool.Bans.{BanningManager, purge, check_ban, add_banned_ip}
use not_only_mining_pool.Bans.Laws.{check_ban-add_banned_ip, check_ban-purge}
use not_only_mining_pool.Vardiff.RingBuffer.{new_ring_buffer, size}
use not_only_mining_pool.Vardiff.RingBuffer.Window.{
  IsValid, new-IsValid, contents, last_n, append_all, window_lem,
}
use not_only_mining_pool.Vardiff.Retarget.{VarDiff, calc_next_diff}
use not_only_mining_pool.Vardiff.Retarget.Spacing.{Ready, calc_next_diff_lem}
use not_only_mining_pool.Examples.Numbers.{cents}

abbrev banned : BanningManager
banned = record { ban_time = 100; banned_ip_list = (codes "a", 10) ∷ (codes "b", 90) ∷ [] }

check_ban-add_banned_ip_example :
    (check_ban (add_banned_ip banned (codes "a") 150) (codes "a") 200).0
    ≡ (if text_eq (codes "a") (codes "a") then true else (check_ban banned (codes "a") 200).0)
check_ban-add_banned_ip_example = check_ban-add_banned_ip banned (codes "a") (codes "a") 150 200

check_ban-purge_example :
    (check_ban (purge banned 120) (codes "a") 130).0 ≡ (check_ban banned (codes "a") 130).0
unfolding lookup text_eq
check_ban-purge_example =
    check_ban-purge banned (codes "a") 120 130 (refl, (refl, tt)) (omega arith)

abbrev gaps : List ℕ
gaps = 5 ∷ 6 ∷ 7 ∷ []

window_lem_example :
    (contents (append_all (new_ring_buffer 2) gaps) ≡ last_n 2 gaps)
    × (size (append_all (new_ring_buffer 2) gaps) ≡ min 2 3)
window_lem_example = window_lem 2 gaps (omega arith)

abbrev client : VarDiff cents
client = record {
  options = record {
    min_diff = 100;
    max_diff = 100000;
    target_time = 15;
    retarget_time = 60;
    variance_percent = 30;
    x2_mode = true;
  };
  max_target_time = 1950;
  min_target_time = 1050;
  time_buffer = new_ring_buffer 16;
  last_rtc = 970;
  last_timestamp = 1000;
}

client-Ready : Ready cents client
client-Ready = record { started = omega arith; buffer = new-IsValid 16 (omega arith) }

calc_next_diff_lem_example :
    (((1040 - 970 < 60)
        × ((calc_next_diff cents client 200 1040).0 ≡ 0)
        × ((calc_next_diff cents client 200 1040).1.last_rtc ≡ 970))
      ⊎ ((60 ≤ 1040 - 970) × ((calc_next_diff cents client 200 1040).1.last_rtc ≡ 1040)))
    × ((calc_next_diff cents client 200 1040).1.options ≡ client.options)
    × IsValid (calc_next_diff cents client 200 1040).1.time_buffer
calc_next_diff_lem_example = calc_next_diff_lem cents client 200 1040 client-Ready
