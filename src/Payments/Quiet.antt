-- ===== src/Payments/Quiet.antt =====
-- What a run does before it pays: calls that read, and leave redis and the wallet as they are.
use not_only_mining_pool.Common.{
  Signed, ℕ, ◌≡◌, refl, subst, sym, Bool, true, false, List, [], ◌∷◌, ◌++◌, Bytes, Option, none,
  some, ◌||◌, if◌then◌else◌, text_eq,
}
use not_only_mining_pool.Common.Dict.{Dict}
use not_only_mining_pool.Common.Float.{Float64}
use not_only_mining_pool.Storage.Types.{PaymentUpdate, PendingBlock}
use not_only_mining_pool.Payments.Prog.{
  Result, ok, err, Rpc, no_result, rpc_error, malformed, result, Call, Reply, get_round_contrib,
  get_pplns_shares, get_transaction, get_block, Transaction, Prog, done, fail, call, ◌>>=◌,
}
use not_only_mining_pool.Payments.Split.{
  PayMode, prop, pplns, solo, pps, PaymentManager, coin_to_sat,
}
use not_only_mining_pool.Payments.Classify.{
  Verdict, orphan, kicked, is_code, is_negative, on_block, on_transaction, classify_block,
  classify_missing_tx,
}
use not_only_mining_pool.Payments.Settle.{Worker}
use not_only_mining_pool.Payments.Run.{
  is_young, credit_all, on_shares, attribute_round, attribute_solo, attribute_mode, attribute,
  on_verdict, on_dist, sort_blocks, sort_blocks_pps, add_orphan, add_confirmed, confirm_all,
}
use not_only_mining_pool.Payments.World.{World, Safe, Quiet, Step}
use not_only_mining_pool.Payments.Keyed.{Keyed, credit_all-Keyed}

-- No condition on a value.
abbrev Any : {A : Type 0} → A → Type 0
Any _ = Unit {0}

module _ {fl : Float64} where
  -- The calls that only read; what they answer may be anything.
  abbrev pub IsRead : Call fl → Type 0
  IsRead (get_round_contrib h) = Unit {0}
  IsRead (get_pplns_shares m n) = Unit {0}
  IsRead (get_transaction t) = Unit {0}
  IsRead (get_block h) = Unit {0}
  IsRead _ = ⊥

  -- A program that makes such calls alone and returns only values that satisfy `P`.
  abbrev pub Reading : {A : Type 0} → (A → Type 0) → Prog fl A → Type 0
  Reading P (done a) = P a
  Reading P (fail e) = Unit {0}
  Reading P (call c k) = IsRead c × ((r : Reply fl c) → Reading P (k r))

  Step-IsRead : (w v : World fl) (c : Call fl) (r : Reply fl c) → IsRead c → Step w c r v → v ≡ w
  Step-IsRead w v (get_round_contrib h) r i st = st.0
  Step-IsRead w v (get_pplns_shares m n) r i st = st.0
  Step-IsRead w v (get_transaction t) r i st = st
  Step-IsRead w v (get_block h) r i st = st
  Step-IsRead w v _ r i st = elim i [ ]

  pub Reading-Quiet :
      {A : Type 0} (I : World fl → Type 0) (w : World fl) (P : A → Type 0) (p : Prog fl A)
      → I w
      → Reading P p
      → Quiet I w P p
  Reading-Quiet I w P (done a) inv h = (inv, (refl, h))
  Reading-Quiet I w P (fail e) inv h = inv
  Reading-Quiet I w P (call c k) inv h = (
    inv,
    λ r v st.
        subst (λ u. Safe I (λ a x. (x ≡ w) × P a) (k r) u) (sym (Step-IsRead w v c r h.0 st))
          (Reading-Quiet I w P (k r) inv (h.1 r)),
  )

  pub Reading-bind :
      {A B : Type 0} (P : A → Type 0) (R : B → Type 0) (p : Prog fl A) (f : A → Prog fl B)
      → Reading P p
      → ((a : A) → P a → Reading R (f a))
      → Reading R (p >>= f)
  Reading-bind P R (done a) f h next = next a h
  Reading-bind P R (fail e) f h next = tt
  Reading-bind P R (call c k) f h next = (h.0, λ r. Reading-bind P R (k r) f (h.1 r) next)

  if_Reading :
      {A : Type 0} (P : A → Type 0) (b : Bool) (p q : Prog fl A)
      → Reading P p
      → Reading P q
      → Reading P (if b then p else q)
  if_Reading P true p q hp hq = hp
  if_Reading P false p q hp hq = hq

module _ {fl : Float64} (pm : PaymentManager fl) where
  open fl use {F}

  on_block-Reading : (r : Rpc Signed) → Reading Any (on_block fl r)
  unfolding on_block
  on_block-Reading no_result = tt
  on_block-Reading (rpc_error c) = tt
  on_block-Reading malformed = tt
  on_block-Reading (result c) = if_Reading Any (is_negative c) _ _ tt tt

  on_transaction-Reading :
      (pb : PendingBlock) (r : Rpc (Transaction fl)) → Reading Any (on_transaction fl pm pb r)
  unfolding on_transaction classify_missing_tx
  on_transaction-Reading pb no_result = tt
  on_transaction-Reading pb (rpc_error c) =
      if_Reading Any (is_code 4 c) _ _ (tt, on_block-Reading) tt
  on_transaction-Reading pb malformed = tt
  on_transaction-Reading pb (result gt) = tt

  classify_block-Reading : (pb : PendingBlock) → Reading Any (classify_block fl pm pb)
  unfolding classify_block
  classify_block-Reading pb = (tt, on_transaction-Reading pb)

  on_shares-Reading : (sat : ℕ) (r : Result (Dict F)) → Reading Any (on_shares pm sat r)
  unfolding on_shares
  on_shares-Reading sat (err e) = tt
  on_shares-Reading sat (ok m) = tt

  attribute_solo-Reading : (finder : Bytes) (sat : ℕ) → Reading Any (attribute_solo pm finder sat)
  unfolding attribute_solo
  attribute_solo-Reading [] sat = tt
  attribute_solo-Reading (b ∷ finder) sat = tt

  attribute_mode-Reading :
      (mode : PayMode) (pb : PendingBlock) (sat : ℕ) → Reading Any (attribute_mode pm mode pb sat)
  unfolding attribute_mode attribute_round
  attribute_mode-Reading solo pb sat = attribute_solo-Reading pb.finder sat
  attribute_mode-Reading pplns pb sat =
      if_Reading Any (fl.le pm.pplns_window (fl.of_nat 0)) _ _ (tt, on_shares-Reading sat)
        (tt, on_shares-Reading sat)
  attribute_mode-Reading prop pb sat = (tt, on_shares-Reading sat)
  attribute_mode-Reading pps pb sat = (tt, on_shares-Reading sat)

  on_verdict-Reading :
      {A : Type 0} (P : A → Type 0) (p q : Prog fl A) (f : Verdict fl → Prog fl A)
      → Reading P p
      → Reading P q
      → ((v : Verdict fl) → Reading P (f v))
      → (o : Option (Verdict fl)) → Reading P (on_verdict pm p q f o)
  unfolding on_verdict
  on_verdict-Reading P p q f hp hq hf none = hp
  on_verdict-Reading P p q f hp hq hf (some v) =
      if_Reading P (text_eq v.category orphan || text_eq v.category kicked) q
        (if is_young v.confirmations pm.min_confirmations then p else f v) hq
        (if_Reading P (is_young v.confirmations pm.min_confirmations) p (f v) hp (hf v))

  on_dist-Reading :
      {A : Type 0} (P : A → Type 0) (p : Prog fl A) (f : Dict ℕ → Prog fl A)
      → Reading P p
      → ((dist : Dict ℕ) → Reading P (f dist))
      → (dist : Dict ℕ) → Reading P (on_dist pm p f dist)
  unfolding on_dist
  on_dist-Reading P p f hp hf [] = hp
  on_dist-Reading P p f hp hf (d ∷ dist) = hf (d ∷ dist)

  -- The sorted blocks leave a well-formed map of workers, and an update that pays nobody yet.
  abbrev pub Sorted : Dict Worker × PaymentUpdate fl × List PendingBlock → Type 0
  Sorted out = Keyed out.0 × (out.1.paid ≡ [])

  pub sort_blocks-Reading :
      (pbs : List PendingBlock) (workers : Dict Worker) (u : PaymentUpdate fl)
      (matured : List PendingBlock)
      → Keyed workers
      → u.paid ≡ []
      → Reading Sorted (sort_blocks pm pbs workers u matured)
  unfolding sort_blocks attribute
  sort_blocks-Reading [] workers u matured k e = (k, e)
  sort_blocks-Reading (pb ∷ pbs) workers u matured k e =
      Reading-bind Any Sorted (classify_block fl pm pb) _ (classify_block-Reading pb) λ o _.
        on_verdict-Reading Sorted _ _ _ (sort_blocks-Reading pbs workers u matured k e)
          (sort_blocks-Reading pbs workers (add_orphan pm pb u) matured k e)
          (λ v.
            Reading-bind Any Sorted (attribute_mode pm pm.pay_mode pb (coin_to_sat fl pm v.reward))
              _ (attribute_mode-Reading pm.pay_mode pb (coin_to_sat fl pm v.reward))
              λ dist _.
                on_dist-Reading Sorted _ _
                  (sort_blocks-Reading pbs workers (add_orphan pm pb u) matured k e)
                  (λ d.
                    sort_blocks-Reading pbs (credit_all d workers) u (matured ++ (pb ∷ []))
                      (credit_all-Keyed d workers k) e)
                  dist)
          o

  pub sort_blocks_pps-Reading :
      (pbs : List PendingBlock) (u : PaymentUpdate fl)
      → u.paid ≡ []
      → Reading (λ u'. u'.paid ≡ []) (sort_blocks_pps pm pbs u)
  unfolding sort_blocks_pps
  sort_blocks_pps-Reading [] u e = e
  sort_blocks_pps-Reading (pb ∷ pbs) u e =
      Reading-bind Any (λ u'. u'.paid ≡ []) (classify_block fl pm pb) _ (classify_block-Reading pb)
        λ o _.
          on_verdict-Reading (λ u'. u'.paid ≡ []) _ _ _ (sort_blocks_pps-Reading pbs u e)
            (sort_blocks_pps-Reading pbs (add_orphan pm pb u) e)
            (λ v. sort_blocks_pps-Reading pbs (add_confirmed pm pb u) e) o

  pub confirm_all-paid :
      (pbs : List PendingBlock) (u : PaymentUpdate fl) → (confirm_all pm pbs u).paid ≡ u.paid
  unfolding confirm_all
  confirm_all-paid [] u = refl
  confirm_all-paid (pb ∷ pbs) u = confirm_all-paid pbs (add_confirmed pm pb u)
