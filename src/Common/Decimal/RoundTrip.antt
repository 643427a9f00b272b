-- ===== src/Common/Decimal/RoundTrip.antt =====
-- Go's strconv: what FormatUint and FormatInt write is read back.
use native.Mathlib.Nat.{pow-suc}
use not_only_mining_pool.Common.{
  ℕ, zero, suc, ◌+◌, ◌*◌, ◌/◌, ◌%◌, ◌^◌, ◌<◌, ◌≡◌, refl, ◌≢◌, inl, inr, some, [], ◌∷◌, ◌++◌, Bytes,
  All, arith, lt→ltb, ltb→lt, sym, ◌∙◌, ltb, ◌-◌, if◌then◌else◌, true, Bool-cases, false,
}
use not_only_mining_pool.Common.Int.{Signed, plus, minus}
use not_only_mining_pool.Common.Decimal.{
  digits, format_uint, format_int, Parsed, syntax_error, range_error, parsed, is_digit,
  parse_digits, parse_uint, positive_of, negative_of, parse_int, parse_int64, checked_plus,
}

-- One more digit behind those read.
unfoldable pub then_digit : Parsed → ℕ → Parsed
then_digit syntax_error d = syntax_error
then_digit range_error d = range_error
then_digit (parsed v) d = if ltb (v * 10 + d) (2 ^ 64) then parsed (v * 10 + d) else range_error

is_digit-add : (d : ℕ) → d < 10 → is_digit (48 + d) ≡ true
unfolding is_digit
is_digit-add d h = ground arith

parse_digits-snoc :
    (a : ℕ) (s : Bytes) (d : ℕ)
    → d < 10
    → parse_digits a (s ++ ((48 + d) ∷ [])) ≡ then_digit (parse_digits a s) d
unfolding parse_digits then_digit
parse_digits-snoc a [] d h = let e : 48 + d - 48 ≡ d = omega arith in rw (e, is_digit-add d h) refl
parse_digits-snoc a (c ∷ s) d h = ground (arith, parse_digits-snoc (a * 10 + (c - 48)) s d h)

digits-low : (k n : ℕ) → n < 10 → digits (suc k) n ≡ (48 + n) ∷ []
unfolding digits
digits-low k n h = rw (lt→ltb n 10 h) refl

digits-high :
    (k n : ℕ) → ltb n 10 ≡ false → digits (suc k) n ≡ digits k (n / 10) ++ ((48 + n % 10) ∷ [])
unfolding digits
digits-high k n h = rw h refl

parse_digits-low : (n : ℕ) → n < 10 → parse_digits 0 ((48 + n) ∷ []) ≡ parsed n
unfolding parse_digits
parse_digits-low n h =
    let e : 0 * 10 + (48 + n - 48) ≡ n = omega arith in
    rw (is_digit-add n h, e, lt→ltb n (2 ^ 64) (omega arith)) refl

parse_digits-none : parse_digits 0 (digits 0 0) ≡ parsed 0
unfolding digits parse_digits
parse_digits-none = refl

pub parse_digits-digits :
    (k n : ℕ) → n < 10 ^ k → n < 2 ^ 64 → parse_digits 0 (digits k n) ≡ parsed n
unfolding then_digit
parse_digits-digits zero n h b = let e : n ≡ 0 = omega arith in rw e parse_digits-none
parse_digits-digits (suc k) n h b = elim (Bool-cases (ltb n 10)) [
  | inl low ↦
      let small : n < 10 = ground arith in rw (digits-low k n small) (parse_digits-low n small)
  | inr high ↦
      let step : 10 ^ suc k ≡ 10 ^ k * 10 = pow-suc 10 k in
      let front : parse_digits 0 (digits k (n / 10)) ≡ parsed (n / 10) =
        parse_digits-digits k (n / 10) (omega arith) (omega arith) in
      let e : n / 10 * 10 + n % 10 ≡ n = omega arith in
      rw
        (
          digits-high k n high,
          parse_digits-snoc 0 (digits k (n / 10)) (n % 10) (omega arith),
          front,
          e,
          lt→ltb n (2 ^ 64) b,
        )
        refl
]

-- A text of digits that is not empty.
abbrev pub Digits : Bytes → Type 0
Digits s = All (λ c. is_digit c ≡ true) s × (s ≢ [])

All-snoc : (P : ℕ → Type 0) (s : Bytes) (c : ℕ) → All P s → P c → All P (s ++ (c ∷ []))
All-snoc P [] c a p = (p, tt)
All-snoc P (x ∷ s) c a p = (a.0, All-snoc P s c a.1 p)

snoc-≢ : (s : Bytes) (c : ℕ) → (s ++ (c ∷ [])) ≢ []
snoc-≢ [] c e = cc
snoc-≢ (x ∷ s) c e = cc

pub digits-All : (k n : ℕ) → All (λ c. is_digit c ≡ true) (digits k n)
unfolding digits
digits-All zero n = tt
digits-All (suc k) n = elim (Bool-cases (ltb n 10)) [
  | inl low ↦ rw low (is_digit-add n (ground arith), tt)
  | inr high ↦ rw high (
      All-snoc _ (digits k (n / 10)) _ (digits-All k (n / 10))
        (is_digit-add (n % 10) (omega arith)))
]

pub digits-nonempty : (k n : ℕ) → digits (suc k) n ≢ []
unfolding digits
digits-nonempty k n e = elim (Bool-cases (ltb n 10)) [
  | inl low ↦ absurd (nonempty low e)
  | inr high ↦ absurd (snoc-≢ (digits k (n / 10)) (48 + n % 10) (sym (digits-high k n high) ∙ e))
]
  where
    nonempty : ltb n 10 ≡ true → digits (suc k) n ≢ []
    nonempty low e = cc (sym (digits-low k n (ltb→lt n 10 low)) ∙ e)

pub parse_uint-nonempty : (s : Bytes) → s ≢ [] → parse_uint s ≡ parse_digits 0 s
unfolding parse_uint
parse_uint-nonempty [] h = absurd (h refl)
parse_uint-nonempty (c ∷ s) h = refl

-- A uint64 is read back from its text.
pub parse_uint-format_uint : (n : ℕ) → n < 2 ^ 64 → parse_uint (format_uint n) ≡ parsed n
unfolding format_uint
parse_uint-format_uint n h =
    rw (parse_uint-nonempty (digits 20 n) (digits-nonempty 19 n))
      (parse_digits-digits 20 n (omega arith) h)

parse_int-digits :
    (s : Bytes) → All (λ c. is_digit c ≡ true) s → s ≢ [] → parse_int s ≡ positive_of (parse_uint s)
unfolding parse_int is_digit
parse_int-digits [] a h = absurd (h refl)
parse_int-digits (c ∷ s) a h = ground (arith, a.0)

pub parse_int-format_uint : (n : ℕ) → n < 2 ^ 63 → parse_int (format_uint n) ≡ plus n
unfolding format_uint positive_of
parse_int-format_uint n h =
    rw
      (
        parse_int-digits (digits 20 n) (digits-All 20 n) (digits-nonempty 19 n),
        parse_uint-format_uint n (omega arith),
        lt→ltb n (2 ^ 63) h,
      )
      refl

-- `FormatInt` of an int64.
abbrev pub IsInt64 : Signed → Type 0
IsInt64 (plus n) = n < 2 ^ 63
IsInt64 (minus n) = n < 2 ^ 63

-- An int64 is read back from its text.
pub parse_int-format_int : (i : Signed) → IsInt64 i → parse_int (format_int i) ≡ i
unfolding format_int parse_int negative_of
parse_int-format_int (plus n) h = parse_int-format_uint n h
parse_int-format_int (minus n) h =
    let e : n + 1 ≡ suc n = omega arith in
    let read : parse_uint (format_uint (n + 1)) ≡ parsed (suc n) =
      rw e (parse_uint-format_uint (suc n) (omega arith)) in
    rw (read, lt→ltb n (2 ^ 63) h) refl

parse_int64-digits :
    (s : Bytes)
    → All (λ c. is_digit c ≡ true) s
    → s ≢ []
    → parse_int64 s ≡ checked_plus (parse_uint s)
unfolding parse_int64 is_digit
parse_int64-digits [] a h = absurd (h refl)
parse_int64-digits (c ∷ s) a h = ground (arith, a.0)

-- ParseInt with its error reads it, too.
pub parse_int64-format_int :
    (n : ℕ) → n < 2 ^ 63 → parse_int64 (format_int (plus n)) ≡ some (plus n)
unfolding format_int format_uint checked_plus
parse_int64-format_int n h =
    rw
      (
        parse_int64-digits (digits 20 n) (digits-All 20 n) (digits-nonempty 19 n),
        parse_uint-format_uint n (omega arith),
        lt→ltb n (2 ^ 63) h,
      )
      refl
