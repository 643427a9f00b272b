-- ===== src/Payments/Chosen.antt =====
-- The first loop of settle: what each worker is to be sent.
use not_only_mining_pool.Common.{
  ◌<◌, ◌≡◌, refl, subst, ◌∙◌, sym, inl, inr, Bool, true, false, List, [], ◌∷◌, Bytes, ◌&&◌, ltb,
  leb, arith, Bool-cases, Option-cases,
}
use not_only_mining_pool.Common.Dict.{Dict, lookup, lookup-insert}
use not_only_mining_pool.Common.Float.{Float64}
use not_only_mining_pool.Payments.Prog.{done, ◌>>=◌}
use not_only_mining_pool.Payments.Split.{PaymentManager, sat_to_coin}
use not_only_mining_pool.Payments.Settle.{
  Worker, Cache, valid_recipient, to_send, is_paid, choose, choose_amounts,
}
use not_only_mining_pool.Payments.World.{World, Quiet, Quiet-bind}
use not_only_mining_pool.Payments.Ledger.{has, Apart, planned}

module _ {fl : Float64} (pm : PaymentManager fl) where
  open fl use {F}

  -- What the first loop returns: amounts to the workers' plan, and the workers with their addresses.
  pub record Chosen (ws : List Worker) (out : Dict F × List Worker × Cache) : Type 0 where
    pub amounts : (a : Bytes) → lookup a out.0 ≡ planned pm a out.1
    pub same : (a : Bytes) → has a out.1 ≡ has a ws
    pub apart : Apart out.1

  module _ (I : World fl → Type 0) (w : World fl) (inv : I w) where
    valid_recipient-Quiet :
        (P : Bool × Cache → Type 0) (addr : Bytes) (cache : Cache)
        → ((out : Bool × Cache) → P out)
        → Quiet I w P (valid_recipient pm addr cache)
    unfolding valid_recipient
    valid_recipient-Quiet P addr cache all = elim (Option-cases (lookup addr cache)) [
      | inl e ↦ rw (e, valid_recipient) (inv, λ r v st. (subst I (sym st) inv, (st, all _)))
      | inr (b, e) ↦ rw (e, valid_recipient) (inv, (refl, all _))
    ]

    -- A worker is paid only where there is something to send.
    is_paid-Quiet :
        (withhold : F) (x : Worker) (cache : Cache)
        → Quiet I w (λ out. out.0 ≡ true → 0 < to_send pm withhold x) (is_paid pm withhold x cache)
    unfolding is_paid
    is_paid-Quiet withhold x cache =
        elim (Bool-cases
          (leb pm.min_payment (to_send pm withhold x) && ltb 0 (to_send pm withhold x))) [
            | inl e ↦
                rw (e, is_paid)
                  (valid_recipient-Quiet (λ out. out.0 ≡ true → 0 < to_send pm withhold x) x.address
                    cache (λ _ _. ground arith))
            | inr e ↦ rw (e, is_paid) (inv, (refl, λ e. absurd (cc e)))
          ]

    choose-Chosen :
        (withhold : F) (x : Worker) (ws : List Worker) (pays : Bool)
        (out : Dict F × List Worker × Cache)
        → has x.address ws ≡ false
        → (pays ≡ true → 0 < to_send pm withhold x)
        → Chosen ws out
        → Chosen (x ∷ ws) (choose pm withhold x pays out)
    unfolding choose has planned
    choose-Chosen withhold x ws true (amounts, ws', cache) d pos c = record {
      amounts = λ a. ground (
        arith,
        pos refl,
        c.amounts a,
        lookup-insert x.address a (sat_to_coin fl pm (to_send pm withhold x)) amounts,
      );
      same = λ a. ground (arith, c.same a);
      apart = (c.same x.address ∙ d, c.apart);
    }
    choose-Chosen withhold x ws false (amounts, ws', cache) d pos c = record {
      amounts = λ a. ground (arith, c.amounts a);
      same = λ a. ground (arith, c.same a);
      apart = (c.same x.address ∙ d, c.apart);
    }

    pub choose_amounts-Quiet :
        (withhold : F) (ws : List Worker) (cache : Cache)
        → Apart ws
        → Quiet I w (Chosen ws) (choose_amounts pm withhold ws cache)
    unfolding choose_amounts
    choose_amounts-Quiet withhold [] cache d = (
      inv,
      (refl, record { amounts = λ a. unfold lookup planned in refl; same = λ a. refl; apart = tt }),
    )
    choose_amounts-Quiet withhold (x ∷ ws) cache d =
        Quiet-bind I w (λ out. out.0 ≡ true → 0 < to_send pm withhold x)
          (λ out v. (v ≡ w) × Chosen (x ∷ ws) out) (is_paid pm withhold x cache)
          (λ (pays, cache'). choose_amounts pm withhold ws cache' >>= λ later.
            done (choose pm withhold x pays later))
          (is_paid-Quiet withhold x cache)
          λ paid pos.
            Quiet-bind I w (Chosen ws) (λ out v. (v ≡ w) × Chosen (x ∷ ws) out)
              (choose_amounts pm withhold ws paid.1)
              (λ later. done (choose pm withhold x paid.0 later))
              (choose_amounts-Quiet withhold ws paid.1 d.1)
              λ later c. (inv, (refl, choose-Chosen withhold x ws paid.0 later d.0 pos c))
