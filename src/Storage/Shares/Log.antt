-- ===== src/Storage/Shares/Log.antt =====
-- storage/redis.go, putShareNow: the share log in the pps mode, in which no entry is dropped by its rank.
use not_only_mining_pool.Common.{
  ℕ, ◌+◌, ◌≤◌, ◌<◌, ◌^◌, ◌≡◌, refl, sym, ap, ◌∙◌, ◌⊎◌, inl, inr, false, Option, none, some, List,
  [], ◌∷◌, ◌++◌, append_assoc, Bytes, All, plus, arith, ◌==◌, if◌then◌else◌, text_eq_iff,
  Bool-cases, lt→ltb, ltb,
}
use not_only_mining_pool.Common.Texts.{text_eq}
use not_only_mining_pool.Common.Decimal.{format_int, parse_int}
use not_only_mining_pool.Common.Decimal.RoundTrip.{parse_int-format_int}
use not_only_mining_pool.Common.Parts.{Without}
use not_only_mining_pool.Storage.Block.{colon}
use not_only_mining_pool.Storage.Block.RoundTrip.{format_int-Without}
use not_only_mining_pool.Storage.Redis.{
  Value, missing, string, hash, members, scored, entries, text_of, zadd, incr, written, place,
  without, in_front, scored_after, first_after, string_of, one_more, next_int,
}
use not_only_mining_pool.Storage.Shares.{log_member, count_of, incr_reply}

-- The text behind the last colon.
unfoldable pub tail_of : Bytes → Option Bytes
tail_of [] = none
tail_of (x ∷ s) = elim (tail_of s) [ none ↦ if x == colon then some s else none | some t ↦ some t ]

tail_of-Without : (s : Bytes) → Without colon s → tail_of s ≡ none
unfolding tail_of
tail_of-Without [] w = refl
tail_of-Without (x ∷ s) w = rw (tail_of, tail_of-Without s w.1, w.0) refl

tail_of-append : (a b : Bytes) → Without colon b → tail_of (a ++ (colon ∷ b)) ≡ some b
unfolding tail_of
tail_of-append [] b w = rw (tail_of-Without b w) refl
tail_of-append (x ∷ a) b w = rw (tail_of-append a b w) refl

pub tail_of-log_member :
    (miner diff : Bytes) (n : ℕ) → tail_of (log_member miner diff n) ≡ some (format_int (plus n))
unfolding log_member
tail_of-log_member miner diff n =
    let e : miner ++ (colon ∷ (diff ++ (colon ∷ format_int (plus n))))
        ≡ (miner ++ (colon ∷ diff)) ++ (colon ∷ format_int (plus n)) =
      simp append_assoc in
    rw e (tail_of-append (miner ++ (colon ∷ diff)) _ (format_int-Without (plus n)))

-- Entries of the log up to a sequence number: each ends with its own.
abbrev pub InLog : ℕ → List (Bytes × ℕ) → Type 0
InLog n = All (λ e. (e.1 ≤ n) × (tail_of e.0 ≡ some (format_int (plus e.1))))

format_int-inj :
    (m n : ℕ) → m < 2 ^ 63 → n < 2 ^ 63 → format_int (plus m) ≡ format_int (plus n) → m ≡ n
format_int-inj m n hm hn e =
    let same : plus m ≡ plus n =
      sym (parse_int-format_int (plus m) hm) ∙ ap parse_int e ∙ parse_int-format_int (plus n) hn in
    cc

other_member :
    (x y : Bytes) (n k : ℕ)
    → k ≤ n
    → n + 1 < 2 ^ 63
    → tail_of x ≡ some (format_int (plus (n + 1)))
    → tail_of y ≡ some (format_int (plus k))
    → text_eq x y ≡ false
other_member x y n k h b ex ey = elim (Bool-cases (text_eq x y)) [
  | inl same ↦
      let e : some (format_int (plus (n + 1))) ≡ some (format_int (plus k)) =
        sym ex ∙ ap tail_of ((text_eq_iff x y).0 same) ∙ ey in
      let texts : format_int (plus (n + 1)) ≡ format_int (plus k) = cc in
      let clash : n + 1 ≡ k = format_int-inj (n + 1) k b (omega arith) texts in absurd (omega arith)
  | inr other ↦ other
]

-- A new entry with the next number goes to the end.
pub place-without :
    (x : Bytes) (n : ℕ) (l : List (Bytes × ℕ))
    → n + 1 < 2 ^ 63
    → tail_of x ≡ some (format_int (plus (n + 1)))
    → InLog n l
    → place (n + 1) x (without x l) ≡ l ++ ((x, n + 1) ∷ [])
unfolding place without in_front
place-without x n [] b e i = refl
place-without x n ((y, k) ∷ l) b e i =
    let other : text_eq x y ≡ false = other_member x y n k i.0.0 b e i.0.1 in
    let later : ltb (n + 1) k ≡ false = ground (arith, i.0.0) in
    let apart : (n + 1 == k) ≡ false = ground (arith, i.0.0) in
    rw (other, later, apart) (ap (λ r. (y, k) ∷ r) (place-without x n l b e i.1))

-- Not a value of another type.
abbrev pub IsScored : Value → Type 0
IsScored missing = Unit
IsScored (string s) = ⊥
IsScored (hash h) = ⊥
IsScored (members m) = ⊥
IsScored (scored l) = Unit

-- The counter of the shares.
abbrev pub Counts : ℕ → Value → Type 0
Counts n v = ((n ≡ 0) × (v ≡ missing)) ⊎ (v ≡ string (format_int (plus n)))

module _ (add_float : Bytes → Bytes → Option Bytes) where
  pub entries-zadd :
      (n : ℕ) (x : Bytes) (v : Value)
      → IsScored v
      → IsScored (written add_float (zadd n x) v)
        × (entries (written add_float (zadd n x) v) ≡ place n x (without x (entries v)))
  unfolding written first_after scored_after entries without
  entries-zadd n x missing h = (tt, refl)
  entries-zadd n x (scored l) h = (tt, refl)
  entries-zadd n x (string s) h = elim h [ ]
  entries-zadd n x (hash m) h = elim h [ ]
  entries-zadd n x (members m) h = elim h [ ]

  pub incr-Counts :
      (n : ℕ) (v : Value)
      → n + 1 < 2 ^ 63
      → Counts n v
      → written add_float incr v ≡ string (format_int (plus (n + 1)))
  unfolding written first_after string_of one_more next_int
  incr-Counts n v b (inl (z, e)) = rw (z, e) refl
  incr-Counts n v b (inr e) =
      rw (e, parse_int-format_int (plus n) (omega arith), lt→ltb (n + 1) (2 ^ 63) b) refl

pub incr_reply-format_int :
    (n : ℕ) → n < 2 ^ 63 → incr_reply (text_of (string (format_int (plus n)))) ≡ n
unfolding incr_reply text_of count_of
incr_reply-format_int n h = rw (parse_int-format_int (plus n) h) refl
