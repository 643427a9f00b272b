-- ===== src/Stratum/Client/Shares.antt =====
-- stratum/client.go, ShouldBan and Shares: which miners are banned.
use not_only_mining_pool.Common.{
  ℕ, ◌+◌, ◌-◌, ◌*◌, ◌%◌, ◌^◌, ◌<◌, ◌≡◌, refl, ◌∙◌, ap, inl, inr, Bool, true, false, Option, none,
  some, List, [], ◌∷◌, Bytes, length, ltb, leb, if◌then◌else◌, text_eq, Bool-cases, arith,
}
use not_only_mining_pool.Common.Float.{Float64}
use not_only_mining_pool.Bans.{BanningManager, check_ban}
use not_only_mining_pool.Bans.Laws.{check_ban-add_banned_ip}
use not_only_mining_pool.Jobs.Share.{BigFloat}
use not_only_mining_pool.Stratum.Client.{
  Flow, goes_on, hangs, Settings, Client, total_shares, bad_percent, should_ban,
}

-- How many of the verdicts are of a kind.
unfoldable pub valid_count : List Bool → ℕ
valid_count [] = 0
valid_count (true ∷ l) = valid_count l + 1
valid_count (false ∷ l) = valid_count l

unfoldable pub invalid_count : List Bool → ℕ
invalid_count [] = 0
invalid_count (true ∷ l) = invalid_count l
invalid_count (false ∷ l) = invalid_count l + 1

counts-length : (l : List Bool) → valid_count l + invalid_count l ≡ length l
unfolding valid_count invalid_count
counts-length [] = refl
counts-length (true ∷ l) = omega (arith, counts-length l)
counts-length (false ∷ l) = omega (arith, counts-length l)

module _ {fl : Float64} (bf : BigFloat fl) (settings : Settings bf) where
  -- The percentage of the invalid ones among verdicts.
  abbrev pub invalid_part : List Bool → fl.F
  invalid_part l = fl.div (fl.of_nat (invalid_count l * 100)) (fl.of_nat (length l))

  -- What is remembered of a client's verdicts, the newest first, behind one more: `none` is a ban.
  unfoldable pub remembered : Bool → List Bool → Option (List Bool)
  remembered true l = some (true ∷ l)
  remembered false l =
      if leb settings.check_threshold (length (false ∷ l))
      then (if fl.lt (invalid_part (false ∷ l)) settings.invalid_percent then some [] else none)
      else some (false ∷ l)

  -- A client whose counters are those of the verdicts.
  abbrev pub counting : List Bool → Client bf → Client bf
  counting l c = record c { valid = valid_count l; invalid = invalid_count l }

  -- What ShouldBan does where the verdicts that are remembered are given, or a ban.
  abbrev pub Judged :
      Option (List Bool)
      → ℕ
      → Client bf
      → BanningManager
      → Bytes
      → ℕ
      → Flow × Client bf × BanningManager
      → Type 0
  Judged (some l) now c bm other later r = r ≡ (goes_on, counting l c, bm)
  Judged none now c bm other later (flow, c', bm') =
      (flow ≡ hangs)
      × (c'.sent ≡ c.sent)
      × (c'.socket_open ≡ c.socket_open)
      × ((check_ban bm' other later).0 ≡ (
          if text_eq c.remote_address other
          then ltb (later - now) bm.ban_time
          else (check_ban bm other later).0))

  total_shares-counts :
      (l : List Bool) (c : Client bf)
      → length l < 2 ^ 57
      → total_shares bf (counting l c) ≡ length l
  unfolding total_shares
  total_shares-counts l c b = omega (arith, counts-length l)

  bad_percent-counts :
      (l : List Bool) (c : Client bf)
      → length l < 2 ^ 57
      → bad_percent bf (counting l c) ≡ invalid_part l
  unfolding bad_percent
  bad_percent-counts l c b =
      let small : invalid_count l * 100 % 2 ^ 64 ≡ invalid_count l * 100 =
        omega (arith, counts-length l) in
      ap (λ k. fl.div (fl.of_nat k) (fl.of_nat (total_shares bf (counting l c)))) small
      ∙ ap (λ k. fl.div (fl.of_nat (invalid_count l * 100)) (fl.of_nat k))
          (total_shares-counts l c b)

  -- ShouldBan against the list of a client's verdicts, of fewer than 2^57. A valid share is counted. An
  -- invalid one is, too, while there are fewer verdicts than the threshold; from there on, if the percentage
  -- of the invalid ones is below the limit, the counters are reset, and else ShouldBan hangs:
  -- the client's address, and no other, is banned for the time from now on, but its socket is still open
  -- and nothing was written to it.
  pub should_ban_lem :
      (b : Bool) (l : List Bool) (now : ℕ) (c : Client bf) (bm : BanningManager) (other : Bytes)
      (later : ℕ)
      → length l + 1 < 2 ^ 57
      → Judged
          (remembered b l)
          now
          c
          bm
          other
          later
          (should_ban bf settings b now (counting l c) bm)
  unfolding should_ban remembered valid_count invalid_count
  should_ban_lem true l now c bm other later h =
      let small : (valid_count l + 1) % 2 ^ 64 ≡ valid_count l + 1 =
        omega (arith, counts-length l) in
      rw small refl
  should_ban_lem false l now c bm other later h =
      let small : (invalid_count l + 1) % 2 ^ 64 ≡ invalid_count l + 1 =
        omega (arith, counts-length l) in
      let total : total_shares bf (counting (false ∷ l) c) ≡ length (false ∷ l) =
        total_shares-counts (false ∷ l) c (omega (arith)) in
      let part : bad_percent bf (counting (false ∷ l) c) ≡ invalid_part (false ∷ l) =
        bad_percent-counts (false ∷ l) c (omega (arith)) in
      rw (small, total, part)
        (elim (Bool-cases (leb settings.check_threshold (length (false ∷ l)))) [
          | inr few ↦ rw few refl
          | inl many ↦
              elim (Bool-cases (fl.lt (invalid_part (false ∷ l)) settings.invalid_percent)) [
                | inl good ↦ rw (many, good) refl
                | inr worse ↦
                    rw (many, worse)
                      (
                        refl,
                        refl,
                        refl,
                        check_ban-add_banned_ip bm c.remote_address other now later,
                      )
              ]
        ])
