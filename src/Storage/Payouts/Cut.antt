-- ===== src/Storage/Payouts/Cut.antt =====
-- storage/redis.go, ApplyPayments: what its cursor cuts off the share log.
use not_only_mining_pool.Common.{
  ℕ, zero, suc, ◌≤◌, ◌<◌, ◌≡◌, refl, sym, subst, ap, ◌∙◌, inl, inr, true, false, Option, List, [],
  ◌∷◌, ◌++◌, append_assoc, Bytes, All, plus, arith, if◌then◌else◌, ltb, leb, Bool-cases,
}
use not_only_mining_pool.Common.Texts.{text_eq}
use not_only_mining_pool.Common.Dict.{range}
use not_only_mining_pool.Common.Float.{Float64}
use not_only_mining_pool.Common.Decimal.{format_int}
use not_only_mining_pool.Storage.Types.{PaymentUpdate}
use not_only_mining_pool.Storage.Redis.{
  FloatText, Value, missing, string, hash, members, scored, entries, above, Command, on, set, del,
  zremrangebyscore, written, first_after, scored_after,
}
use not_only_mining_pool.Storage.Redis.After.{
  Misses, after_all, after_all-append, after_all-else, after-on,
}
use not_only_mining_pool.Storage.Keys.{
  apart, cursor_key, pplns_log, blocks_confirmed, blocks_orphaned, intent_key,
}
use not_only_mining_pool.Storage.Shares.{Storage}
use not_only_mining_pool.Storage.Shares.Log.{IsScored}
use not_only_mining_pool.Storage.Payouts.{
  balance_writes, paid_writes, settled_writes, round_deletes, cursor_writes, apply_payments,
}
use not_only_mining_pool.Storage.Payouts.Paid.{
  All-append, balance_writes-Misses, paid_writes-Misses, settled_writes-Misses,
  round_deletes-Misses,
}

-- The highest number of entries, or `m`.
unfoldable pub max_of : ℕ → List (Bytes × ℕ) → ℕ
max_of m [] = m
max_of m (e ∷ l) = max_of (if ltb m e.1 then e.1 else m) l

pub max_of-above : (m : ℕ) (l : List (Bytes × ℕ)) → m ≤ max_of m l
unfolding max_of
max_of-above m [] = omega arith
max_of-above m (e ∷ l) = ground (arith, max_of-above (if ltb m e.1 then e.1 else m) l)

pub max_of-bound : (m n : ℕ) (l : List (Bytes × ℕ)) → m ≤ n → All (λ e. e.1 ≤ n) l → max_of m l ≤ n
unfolding max_of
max_of-bound m n [] h a = h
max_of-bound m n (e ∷ l) h a =
    max_of-bound (if ltb m e.1 then e.1 else m) n l (ground (arith, a.0)) a.1

pub above-append : (n : ℕ) (l k : List (Bytes × ℕ)) → above n (l ++ k) ≡ above n l ++ above n k
unfolding above
above-append n [] k = refl
above-append n (e ∷ l) k = ground (arith, above-append n l k)

pub above-none : (n : ℕ) (l : List (Bytes × ℕ)) → All (λ e. e.1 ≤ n) l → above n l ≡ []
unfolding above
above-none n [] a = refl
above-none n ((x, k) ∷ l) a =
    let e : leb k n ≡ true = ground (arith, a.0) in rw e (above-none n l a.1)

-- No entry of the list is above the highest of those above `c`.
pub max_of-All : (c m : ℕ) (l : List (Bytes × ℕ)) → c ≤ m → All (λ e. e.1 ≤ max_of m (above c l)) l
unfolding above max_of
max_of-All c m [] h = tt
max_of-All c m ((x, k) ∷ l) h = elim (Bool-cases (leb k c)) [
  | inl e ↦
      let low : k ≤ c = ground arith in
      let same : max_of m (above c ((x, k) ∷ l)) ≡ max_of m (above c l) = rw e refl in
      subst (λ n. All (λ e. e.1 ≤ n) ((x, k) ∷ l)) (sym same)
        (omega (arith, max_of-above m (above c l)), max_of-All c m l h)
  | inr e ↦
      let m' : ℕ = if ltb m k then k else m in
      let up : (k ≤ m') × (m ≤ m') = ground arith in
      let same : max_of m (above c ((x, k) ∷ l)) ≡ max_of m' (above c l) = rw e refl in
      subst (λ n. All (λ e. e.1 ≤ n) ((x, k) ∷ l)) (sym same)
        (
          omega (arith, max_of-above m' (above c l), up.0),
          max_of-All c (if ltb m k then k else m) l (omega (arith, up.1)),
        )
]

pub above-All :
    (c n : ℕ) (l : List (Bytes × ℕ)) → All (λ e. e.1 ≤ n) l → All (λ e. e.1 ≤ n) (above c l)
unfolding above
above-All c n [] a = tt
above-All c n ((x, k) ∷ l) a = elim (Bool-cases (leb k c)) [
  | inl e ↦
      let same : above c ((x, k) ∷ l) ≡ above c l = rw e refl in
      subst (All λ e. e.1 ≤ n) (sym same) (above-All c n l a.1)
  | inr e ↦
      let same : above c ((x, k) ∷ l) ≡ (x, k) ∷ above c l = rw e refl in
      subst (All λ e. e.1 ≤ n) (sym same) (a.0, above-All c n l a.1)
]

pub above-twice : (n : ℕ) (l : List (Bytes × ℕ)) → above n (above n l) ≡ above n l
unfolding above
above-twice n [] = refl
above-twice n ((x, k) ∷ l) = elim (Bool-cases (leb k n)) [
  | inl e ↦ rw e (above-twice n l)
  | inr e ↦ rw (e, e) (ap (λ r. (x, k) ∷ r) (above-twice n l))
]

pub above-All' : (n : ℕ) (l : List (Bytes × ℕ)) → All (λ e. n < e.1) l → above n l ≡ l
unfolding above
above-All' n [] a = refl
above-All' n ((x, k) ∷ l) a =
    let e : leb k n ≡ false = ground (arith, a.0) in
    rw e (ap (λ r. (x, k) ∷ r) (above-All' n l a.1))

module _ {fl : Float64} (texts : FloatText fl) (s : Storage)
    (add_float : Bytes → Bytes → Option Bytes) where
  -- What the cursor cuts off.
  unfoldable pub cut : ℕ → List (Bytes × ℕ) → List (Bytes × ℕ)
  cut zero l = l
  cut (suc n) l = above (suc n) l

  pub above-cut : (n : ℕ) (l : List (Bytes × ℕ)) → above n (cut n l) ≡ above n l
  unfolding cut
  above-cut zero l = refl
  above-cut (suc n) l = above-twice (suc n) l

  entries-zremrangebyscore :
      (n : ℕ) (v : Value)
      → IsScored v
      → entries (written add_float (zremrangebyscore n) v) ≡ above n (entries v)
  unfolding written first_after scored_after entries above
  entries-zremrangebyscore n missing h = refl
  entries-zremrangebyscore n (scored l) h = refl
  entries-zremrangebyscore n (string t) h = elim h [ ]
  entries-zremrangebyscore n (hash m) h = elim h [ ]
  entries-zremrangebyscore n (members m) h = elim h [ ]

  cursor_writes-log :
      (n : ℕ) (m : Bytes → Value)
      → IsScored (m (pplns_log s.coin))
      → entries (after_all add_float (cursor_writes texts s n) m (pplns_log s.coin))
        ≡ cut n (entries (m (pplns_log s.coin)))
  unfolding cursor_writes after_all cut text_eq
  cursor_writes-log zero m h = refl
  cursor_writes-log (suc n) m h =
      let moved : List Command = on (cursor_key s.coin) (set (format_int (plus (suc n)))) ∷ [] in
      let same : after_all add_float moved m (pplns_log s.coin) ≡ m (pplns_log s.coin) =
        after_all-else add_float moved (pplns_log s.coin) m (apart s.coin _ _ refl, tt) in
      ap entries (
        after-on add_float (pplns_log s.coin) (zremrangebyscore (suc n))
          (after_all add_float moved m)
        ∙ ap (written add_float (zremrangebyscore (suc n))) same)
      ∙ entries-zremrangebyscore (suc n) _ h

  -- The writes of the transaction in front of its cursor.
  unfoldable pub front_writes : PaymentUpdate fl → List Command
  front_writes u =
      balance_writes texts s (range u.balances)
      ++ (paid_writes texts s (range u.paid)
          ++ (settled_writes texts s (blocks_confirmed s.coin) u.confirmed
              ++ (settled_writes texts s (blocks_orphaned s.coin) u.orphaned
                  ++ round_deletes texts s u.delete_rounds)))

  front_writes-Misses : (u : PaymentUpdate fl) → All (Misses (pplns_log s.coin)) (front_writes u)
  unfolding front_writes text_eq
  front_writes-Misses u =
      All-append _ (balance_writes texts s (range u.balances)) _
        (balance_writes-Misses texts s _ (range u.balances) (apart s.coin _ _ refl))
        (All-append _ (paid_writes texts s (range u.paid)) _
          (paid_writes-Misses texts s _ (range u.paid) (apart s.coin _ _ refl))
          (All-append _ (settled_writes texts s _ u.confirmed) _
            (settled_writes-Misses texts s _ _ u.confirmed (apart s.coin _ _ refl)
              (apart s.coin _ _ refl))
            (All-append _ (settled_writes texts s _ u.orphaned) _
              (settled_writes-Misses texts s _ _ u.orphaned (apart s.coin _ _ refl)
                (apart s.coin _ _ refl))
              (round_deletes-Misses texts s _ u.delete_rounds (λ h. apart s.coin _ _ refl)))))

  pub apply_payments-fronts :
      (u : PaymentUpdate fl)
      → apply_payments texts s u
        ≡ front_writes u
          ++ (cursor_writes texts s u.pps_cursor ++ (on (intent_key s.coin) del ∷ []))
  unfolding apply_payments front_writes
  apply_payments-fronts u = simp append_assoc

  -- The transaction cuts the log at its cursor.
  pub apply_payments-log :
      (u : PaymentUpdate fl) (m : Bytes → Value)
      → IsScored (m (pplns_log s.coin))
      → entries (after_all add_float (apply_payments texts s u) m (pplns_log s.coin))
        ≡ cut u.pps_cursor (entries (m (pplns_log s.coin)))
  unfolding text_eq
  apply_payments-log u m h =
      let m' : Bytes → Value = after_all add_float (front_writes u) m in
      let same : m' (pplns_log s.coin) ≡ m (pplns_log s.coin) =
        after_all-else add_float (front_writes u) (pplns_log s.coin) m (front_writes-Misses u) in
      ap (λ cs. entries (after_all add_float cs m (pplns_log s.coin))) (apply_payments-fronts u)
      ∙ ap (λ g. entries (g (pplns_log s.coin)))
          (after_all-append add_float (front_writes u) _ m
            ∙ after_all-append add_float (cursor_writes texts s u.pps_cursor) _ m')
      ∙ ap entries (
          after_all-else add_float (on (intent_key s.coin) del ∷ []) (pplns_log s.coin) _
            (apart s.coin _ _ refl, tt))
      ∙ cursor_writes-log u.pps_cursor m' (subst IsScored (sym same) h)
      ∙ ap (λ v. cut u.pps_cursor (entries v)) same
