-- ===== src/Stratum/Client/Answers.antt =====
-- What the miner is answered about a submission.
use not_only_mining_pool.Common.{
  ℕ, ◌+◌, ◌%◌, ◌^◌, ◌≡◌, refl, sym, ap, ◌∙◌, inl, inr, Bool, true, false, not, Option, none, some,
  ◌∷◌, Bytes, leb, if◌then◌else◌, Bool-cases,
}
use not_only_mining_pool.Common.Float.{Float64}
use not_only_mining_pool.Bans.{BanningManager}
use not_only_mining_pool.Jobs.Share.{ShareError, error_code, BigFloat}
use not_only_mining_pool.Jobs.Manager.{Options}
use not_only_mining_pool.Jobs.Process.{Replies}
use not_only_mining_pool.Jobs.Submit.{Algorithm}
use not_only_mining_pool.Stratum.Client.{
  Flow, goes_on, hangs, null, truth, response, Request, Settings, Client, send, total_shares,
  bad_percent, should_ban,
}
use not_only_mining_pool.Stratum.Client.Announced.{Flow-cases}
use not_only_mining_pool.Stratum.Client.Handlers.{Session, is_valid, refuse, answer, handle_submit}

if_true : {A : Type 0} (b : Bool) (x y : A) → b ≡ true → (if b then x else y) ≡ x
if_true b x y e = rw e refl

module _ {fl : Float64} (bf : BigFloat fl) (settings : Settings bf) where
  -- ShouldBan writes nothing to the client.
  should_ban_sent :
      (now : ℕ) (c : Client bf) (bm : BanningManager)
      → (should_ban bf settings false now c bm).1.sent ≡ c.sent
  unfolding should_ban
  should_ban_sent now c bm =
      let bad : Client bf = record c { invalid = (c.invalid + 1) % 2 ^ 64 } in
      elim (Bool-cases (leb settings.check_threshold (total_shares bf bad))) [
        | inr few ↦ rw few refl
        | inl many ↦ elim (Bool-cases (fl.lt (bad_percent bf bad) settings.invalid_percent)) [
          | inl good ↦ rw (many, good) refl
          | inr worse ↦ rw (many, worse) refl
        ]
      ]

module _ (decode : Bytes → Option Bytes) {fl : Float64} (bf : BigFloat fl)
    (opts : Options decode fl) (alg : Algorithm) (settings : Settings bf) where
  -- The end of HandleSubmit, unless it hangs in a ban: a valid share is answered with true. An invalid one is
  -- answered twice under the same id, with false and the error's code and then with true.
  pub answer_lem :
      (m : Request bf) (error : Option ShareError) (now : ℕ)
      (s s' : Session decode bf opts alg settings)
      → answer decode bf opts alg settings m error now s ≡ (goes_on, s')
      → s'.client.sent
        ≡ response m.id (truth true) none ∷ (elim error [
          | none ↦ s.client.sent
          | some e ↦ response m.id (truth false) (some (error_code e)) ∷ s.client.sent
        ])
  unfolding answer send is_valid should_ban
  answer_lem m none now s s' e =
      ap (λ (x : Flow × Session decode bf opts alg settings). x.1.client.sent) (sym e)
  answer_lem m (some bad) now s s' e =
      let same = should_ban_sent bf settings now s.client s.bans in
      elim (Flow-cases (should_ban bf settings false now s.client s.bans).0) [
        | inr stuck ↦
            let clash : hangs ≡ goes_on =
              ap (λ (x : Flow × Session decode bf opts alg settings). x.0)
                (rw (stuck, answer) at e) in
            cc
        | inl on ↦
            ap (λ (x : Flow × Session decode bf opts alg settings). x.1.client.sent)
              (sym (rw (on, answer) at e))
            ∙ ap
                (λ l.
                  response m.id (truth true) none
                  ∷ response m.id (truth false) (some (error_code bad))
                  ∷ l)
                same
      ]

  -- A submission of a client that is not authorized is answered once, with error 24, and is not looked at:
  -- the jobs stay, and nothing is stored.
  pub handle_submit_unauthorized :
      (m : Request bf) (r : Replies) (now : ℕ) (s : Session decode bf opts alg settings)
      → s.client.is_authorized ≡ false
      → (flow : Flow) × (s' : Session decode bf opts alg settings) × (handle_submit decode bf opts
            alg settings m r now s
          ≡ some (flow, s'))
        × (s'.jobs ≡ s.jobs)
        × (s'.stored ≡ s.stored)
        × (s'.client.sent ≡ response m.id null (some 24) ∷ s.client.sent)
  unfolding handle_submit refuse send should_ban
  handle_submit_unauthorized m r now s e = (
    (refuse decode bf opts alg settings m 24 now s).0,
    (refuse decode bf opts alg settings m 24 now s).1,
    if_true (not s.client.is_authorized) _ _ (ap not e),
    refl,
    refl,
    should_ban_sent bf settings now (send bf (response m.id null (some 24)) s.client) s.bans,
  )
