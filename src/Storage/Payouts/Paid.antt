-- ===== src/Storage/Payouts/Paid.antt =====
-- storage/redis.go, ApplyPayments: which keys its commands name, and what they leave in the hash of the
-- payouts.
use not_only_mining_pool.Common.{
  ℕ, zero, suc, ◌≡◌, refl, sym, subst, ◌∙◌, ap, false, Option, none, some, List, [], ◌∷◌, ◌++◌,
  Bytes, All, append_assoc, if◌then◌else◌, text_eq_iff, Bool-cases, inl, inr,
}
use not_only_mining_pool.Common.Texts.{text_eq}
use not_only_mining_pool.Common.Dict.{Dict, lookup, range, Distinct, range-Distinct, lookup-range}
use not_only_mining_pool.Common.Decimal.{format_uint}
use not_only_mining_pool.Common.Float.{Float64}
use not_only_mining_pool.Storage.Types.{PaymentUpdate}
use not_only_mining_pool.Storage.Redis.{
  FloatText, Value, missing, field, Command, on, del, after, hincrbyfloat, written,
}
use not_only_mining_pool.Storage.Redis.After.{
  Misses, after_all, after_all-append, after_all-else, after-on,
}
use not_only_mining_pool.Storage.Redis.Hashes.{
  IsHash, hincrbyfloat-IsHash, field-hincrbyfloat, more, if_ok-more,
}
use not_only_mining_pool.Storage.Keys.{
  apart, pplns_log, round_at, blocks_pending, blocks_confirmed, blocks_orphaned, balances_key,
  payouts_key, intent_key, cursor_key,
}
use not_only_mining_pool.Storage.Shares.{Storage}
use not_only_mining_pool.Storage.Payouts.{
  balance_writes, paid_writes, settled_writes, round_deletes, cursor_writes, apply_payments,
}

pub All-append :
    {A : Type 0} (P : A → Type 0) (xs ys : List A) → All P xs → All P ys → All P (xs ++ ys)
All-append P [] ys p q = q
All-append P (x ∷ xs) ys p q = (p.0, All-append P xs ys p.1 q)

module _ {fl : Float64} (texts : FloatText fl) (s : Storage) where
  open fl use {F}

  -- What redis' sums make of amounts, the newest first.
  module _ (add_float : Bytes → Bytes → Option Bytes) where
    unfoldable pub total : List F → Option Bytes
    total [] = none
    total (x ∷ xs) = more add_float (total xs) (texts.format x)

    unfoldable pub and_paid : Option F → Option Bytes → Option Bytes
    and_paid none old = old
    and_paid (some x) old = more add_float old (texts.format x)

    -- One entry of a map in front of others, which have another key.
    and_paid-step :
        (k a : Bytes) (x : F) (m : Dict F) (h : Bytes → Option Bytes)
        → lookup k m ≡ none
        → and_paid (lookup a m) (if text_eq k a then more add_float (h k) (texts.format x) else h a)
          ≡ and_paid (if text_eq k a then some x else lookup a m) (h a)
    unfolding and_paid
    and_paid-step k a x m h d = elim (Bool-cases (text_eq k a)) [
      | inl same ↦
          let e : k ≡ a = (text_eq_iff k a).0 same in
          let none_there : lookup a m ≡ none = subst (λ b. lookup b m ≡ none) e d in
          rw (same, none_there, e) refl
      | inr other ↦ rw other refl
    ]

    -- What the payouts of a map leave in their hash.
    field-paid_writes :
        (m : Dict F) (g : Bytes → Value) (a : Bytes)
        → Distinct m
        → IsHash (g (payouts_key s.coin))
        → IsHash (after_all add_float (paid_writes texts s m) g (payouts_key s.coin))
          × (field (after_all add_float (paid_writes texts s m) g (payouts_key s.coin)) a
              ≡ and_paid (lookup a m) (field (g (payouts_key s.coin)) a))
    unfolding paid_writes after_all and_paid lookup
    field-paid_writes [] g a d h = (h, refl)
    field-paid_writes ((k, x) ∷ m) g a d h =
        let g' : Bytes → Value =
          after add_float (on (payouts_key s.coin) (hincrbyfloat k (texts.format x))) g in
        let at : g' (payouts_key s.coin)
            ≡ written add_float (hincrbyfloat k (texts.format x)) (g (payouts_key s.coin)) =
          after-on add_float (payouts_key s.coin) (hincrbyfloat k (texts.format x)) g in
        let ih =
          field-paid_writes m g' a d.1
            (subst IsHash (sym at) (hincrbyfloat-IsHash add_float k (texts.format x) _ h)) in
        let paid : field (g' (payouts_key s.coin)) a ≡ (
            if text_eq k a
            then more add_float (field (g (payouts_key s.coin)) k) (texts.format x)
            else field (g (payouts_key s.coin)) a) =
          ap (λ v. field v a) at
          ∙ field-hincrbyfloat add_float k (texts.format x) _ a h
          ∙ if_ok-more add_float k (texts.format x) a (field (g (payouts_key s.coin))) in
        (
          ih.0,
          ih.1
              ∙ ap (and_paid (lookup a m)) paid
              ∙ and_paid-step k a x m (field (g (payouts_key s.coin))) d.0,
        )

  -- A key that no part of the transaction names but, it may be, the first two and the last.
  pub record Elsewhere (j : Bytes) : Type 0 where
    pub pending : text_eq (blocks_pending s.coin) j ≡ false
    pub confirmed : text_eq (blocks_confirmed s.coin) j ≡ false
    pub orphaned : text_eq (blocks_orphaned s.coin) j ≡ false
    pub round : (h : Bytes) → text_eq (round_at s.coin h) j ≡ false
    pub cursor : text_eq (cursor_key s.coin) j ≡ false
    pub log : text_eq (pplns_log s.coin) j ≡ false

  pub balance_writes-Misses :
      (j : Bytes) (m : Dict F)
      → text_eq (balances_key s.coin) j ≡ false
      → All (Misses j) (balance_writes texts s m)
  unfolding balance_writes
  balance_writes-Misses j [] h = tt
  balance_writes-Misses j ((k, x) ∷ m) h = (h, balance_writes-Misses j m h)

  pub paid_writes-Misses :
      (j : Bytes) (m : Dict F)
      → text_eq (payouts_key s.coin) j ≡ false
      → All (Misses j) (paid_writes texts s m)
  unfolding paid_writes
  paid_writes-Misses j [] h = tt
  paid_writes-Misses j ((k, x) ∷ m) h = (h, paid_writes-Misses j m h)

  pub settled_writes-Misses :
      (j dst : Bytes) (bs : List Bytes)
      → text_eq (blocks_pending s.coin) j ≡ false
      → text_eq dst j ≡ false
      → All (Misses j) (settled_writes texts s dst bs)
  unfolding settled_writes
  settled_writes-Misses j dst [] p d = tt
  settled_writes-Misses j dst (b ∷ bs) p d = ((p, d), settled_writes-Misses j dst bs p d)

  pub round_deletes-Misses :
      (j : Bytes) (hs : List ℕ)
      → ((h : Bytes) → text_eq (round_at s.coin h) j ≡ false)
      → All (Misses j) (round_deletes texts s hs)
  unfolding round_deletes
  round_deletes-Misses j [] r = tt
  round_deletes-Misses j (h ∷ hs) r = (r (format_uint h), round_deletes-Misses j hs r)

  cursor_writes-Misses :
      (j : Bytes) (n : ℕ) → Elsewhere j → All (Misses j) (cursor_writes texts s n)
  unfolding cursor_writes
  cursor_writes-Misses j zero e = tt
  cursor_writes-Misses j (suc n) e = (e.cursor, (e.log, tt))

  -- The transaction behind the payouts, without the deletion of the intent.
  tail_writes : PaymentUpdate fl → List Command
  tail_writes u =
      settled_writes texts s (blocks_confirmed s.coin) u.confirmed
      ++ (settled_writes texts s (blocks_orphaned s.coin) u.orphaned
          ++ (round_deletes texts s u.delete_rounds ++ cursor_writes texts s u.pps_cursor))

  tail_writes-Misses :
      (j : Bytes) (u : PaymentUpdate fl) → Elsewhere j → All (Misses j) (tail_writes u)
  unfolding tail_writes
  tail_writes-Misses j u e =
      All-append _ (settled_writes texts s _ u.confirmed) _
        (settled_writes-Misses j _ u.confirmed e.pending e.confirmed)
        (All-append _ (settled_writes texts s _ u.orphaned) _
          (settled_writes-Misses j _ u.orphaned e.pending e.orphaned)
          (All-append _ (round_deletes texts s u.delete_rounds) _
            (round_deletes-Misses j u.delete_rounds e.round)
            (cursor_writes-Misses j u.pps_cursor e)))

  apply_payments-parts :
      (u : PaymentUpdate fl)
      → apply_payments texts s u
        ≡ balance_writes texts s (range u.balances)
          ++ (paid_writes texts s (range u.paid)
              ++ (tail_writes u ++ (on (intent_key s.coin) del ∷ [])))
  unfolding apply_payments tail_writes
  apply_payments-parts u = simp append_assoc

  payouts-Elsewhere : Elsewhere (payouts_key s.coin)
  unfolding text_eq
  payouts-Elsewhere = record {
    pending = apart s.coin _ _ refl;
    confirmed = apart s.coin _ _ refl;
    orphaned = apart s.coin _ _ refl;
    round = λ h. apart s.coin _ _ refl;
    cursor = apart s.coin _ _ refl;
    log = apart s.coin _ _ refl;
  }

  intent-Elsewhere : Elsewhere (intent_key s.coin)
  unfolding text_eq
  intent-Elsewhere = record {
    pending = apart s.coin _ _ refl;
    confirmed = apart s.coin _ _ refl;
    orphaned = apart s.coin _ _ refl;
    round = λ h. apart s.coin _ _ refl;
    cursor = apart s.coin _ _ refl;
    log = apart s.coin _ _ refl;
  }

  module _ (add_float : Bytes → Bytes → Option Bytes) where
    -- Only its payouts touch their hash.
    only_paid_writes :
        (u : PaymentUpdate fl) (g : Bytes → Value)
        → after_all add_float (apply_payments texts s u) g (payouts_key s.coin)
          ≡ after_all add_float
              (paid_writes texts s (range u.paid))
              (after_all add_float (balance_writes texts s (range u.balances)) g)
              (payouts_key s.coin)
    unfolding text_eq
    only_paid_writes u g =
        let rest : List Command = tail_writes u ++ (on (intent_key s.coin) del ∷ []) in
        let misses : All (Misses (payouts_key s.coin)) rest =
          All-append _ (tail_writes u) _ (tail_writes-Misses _ u payouts-Elsewhere)
            (apart s.coin _ _ refl, tt) in
        rw
          (
            apply_payments-parts u,
            after_all-append add_float (balance_writes texts s (range u.balances))
                (paid_writes texts s (range u.paid) ++ rest) g,
            after_all-append add_float (paid_writes texts s (range u.paid)) rest
                (after_all add_float (balance_writes texts s (range u.balances)) g),
          )
          (after_all-else add_float rest (payouts_key s.coin) _ misses)

    -- The transaction adds what it pays to the payouts.
    pub payouts-apply_payments :
        (u : PaymentUpdate fl) (g : Bytes → Value) (a : Bytes)
        → IsHash (g (payouts_key s.coin))
        → IsHash (after_all add_float (apply_payments texts s u) g (payouts_key s.coin))
          × (field (after_all add_float (apply_payments texts s u) g (payouts_key s.coin)) a
              ≡ and_paid add_float (lookup a u.paid) (field (g (payouts_key s.coin)) a))
    unfolding text_eq
    payouts-apply_payments u g a h =
        let before : after_all add_float (balance_writes texts s (range u.balances)) g
              (payouts_key s.coin)
            ≡ g (payouts_key s.coin) =
          after_all-else add_float _ (payouts_key s.coin) g (
            balance_writes-Misses (payouts_key s.coin) (range u.balances)
              (apart s.coin _ _ refl)) in
        let paid =
          field-paid_writes add_float (range u.paid) _ a (range-Distinct u.paid)
            (subst IsHash (sym before) h) in
        rw (only_paid_writes u g) (
          paid.0,
          paid.1
              ∙ ap (λ v. and_paid add_float (lookup a (range u.paid)) (field v a)) before
              ∙ ap (λ o. and_paid add_float o (field (g (payouts_key s.coin)) a))
                  (lookup-range a u.paid),
        )

    -- It drops the intent.
    pub intent-apply_payments :
        (u : PaymentUpdate fl) (g : Bytes → Value)
        → after_all add_float (apply_payments texts s u) g (intent_key s.coin) ≡ missing
    unfolding after_all written
    intent-apply_payments u g =
        let cs : List Command =
          balance_writes texts s (range u.balances)
          ++ (paid_writes texts s (range u.paid) ++ tail_writes u) in
        let e : apply_payments texts s u ≡ cs ++ (on (intent_key s.coin) del ∷ []) =
          apply_payments-parts u ∙ simp append_assoc in
        rw (e, after_all-append add_float cs (on (intent_key s.coin) del ∷ []) g)
          (after-on add_float (intent_key s.coin) del _)
