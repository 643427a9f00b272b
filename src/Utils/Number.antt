-- ===== src/Utils/Number.antt =====
-- utils/utils.go: SerializeNumber, the script numbers of a coinbase (BIP 34).
use mathlib.Core.Option
use native.Mathlib.Nat.{pow-suc}
use not_only_mining_pool.Common.{
  ℕ, zero, suc, ◌+◌, ◌*◌, ◌/◌, ◌%◌, ◌≤◌, ◌<◌, ◌^◌, ◌≡◌, ◌⊎◌, inl, inr, ◌&&◌, Option, none, some, [],
  ◌∷◌, arith, Bytes, length, ltb, leb, if◌then◌else◌, Bool-cases,
}
use not_only_mining_pool.Utils.Pack.RoundTrip.{get_le}

-- The loop from index `l` on: what it writes to `buff[l], buff[l+1], ...`. The buffer has nine bytes,
-- so a write at index 9 panics: `none`. Ten rounds reach that index.
number_loop : ℕ → ℕ → ℕ → Option Bytes
number_loop zero l n = none
number_loop (suc fuel) l n =
    let rest = number_loop fuel (l + 1) (n / 256) in
    if ltb 8 l
    then none
    else if ltb 0x7f n
    then Option.map (λ bs. n % 256 ∷ bs) rest
    else some (n % 256 ∷ [])

-- SerializeNumber. `buff[0]` is the last index written, so the number of bytes behind it.
unfoldable pub serialize_number : ℕ → Option Bytes
unfolding number_loop
serialize_number n =
    if leb 1 n && leb n 16
    then some ((0x50 + n) ∷ [])
    else Option.map (λ bs. length bs ∷ bs) (number_loop 10 1 n)

-- The last byte leaves the sign bit clear.
abbrev pub IsUnsigned : Bytes → Type 0
IsUnsigned [] = ⊥
IsUnsigned (b ∷ []) = b ≤ 0x7f
IsUnsigned (b ∷ c ∷ bs) = IsUnsigned (c ∷ bs)

cons-IsUnsigned : (b : ℕ) (bs : Bytes) → IsUnsigned bs → IsUnsigned (b ∷ bs)
cons-IsUnsigned b [] u = elim u [ ]
cons-IsUnsigned b (c ∷ bs) u = u

pub record Written (n : ℕ) (bs : Bytes) (room : ℕ) : Type 0 where
  pub exact : get_le bs ≡ n
  pub unsigned : IsUnsigned bs
  pub short : length bs ≤ room

-- With `r + 1` bytes of room the loop writes every number below 2^(8r+7).
number_loop_total :
    (r l n : ℕ)
    → r + l ≡ 8
    → n < 128 * 256 ^ r
    → (bs : Bytes) × (number_loop (suc (suc r)) l n ≡ some bs) × Written n bs (suc r)
unfolding number_loop get_le
number_loop_total zero l n e h = (
  n % 256 ∷ [],
  ground arith,
  record { exact = omega arith; unsigned = omega arith; short = omega arith },
)
number_loop_total (suc r) l n e h = elim (Bool-cases (ltb 0x7f n)) [
  | inl more ↦
      let (bs, eq, w) =
        number_loop_total r (l + 1) (n / 256) (omega arith) (omega (arith, pow-suc 256 r)) in
      (
        n % 256 ∷ bs,
        ground arith,
        record {
          exact = ground arith;
          unsigned = cons-IsUnsigned (n % 256) bs w.unsigned;
          short = ground arith;
        },
      )
  | inr less ↦ (
    n % 256 ∷ [],
    ground arith,
    record { exact = ground arith; unsigned = ground arith; short = omega arith },
  )
]

-- Any other number makes it write past the end.
number_loop_panics :
    (r l n : ℕ) → r + l ≡ 8 → 128 * 256 ^ r ≤ n → number_loop (suc (suc r)) l n ≡ none
unfolding number_loop
number_loop_panics zero l n e h = ground arith
number_loop_panics (suc r) l n e h = elim (Bool-cases (ltb 0x7f n)) [
  | inl more ↦
      ground
        (arith, number_loop_panics r (l + 1) (n / 256) (omega arith) (omega (arith, pow-suc 256 r)))
  | inr less ↦ absurd (ground (arith, pow-suc 256 r, pow_pos r))
]
  where
    pow_pos : (k : ℕ) → 1 ≤ 256 ^ k
    pow_pos zero = omega arith
    pow_pos (suc k) = omega (arith, pow_pos k, pow-suc 256 k)

-- Every number below 2^63 is serialized, without a write out of bounds: as the opcode 0x50 + n from
-- 1 to 16, and otherwise as a count of at most eight bytes and that many bytes, which spell the
-- number lowest first and leave the sign bit of the last one clear.
pub serialize_number_lem :
    (n : ℕ)
    → n < 2 ^ 63
    → ((1 ≤ n) × (n ≤ 16) × (serialize_number n ≡ some ((0x50 + n) ∷ [])))
      ⊎ (((n ≡ 0) ⊎ (16 < n))
          × (bs : Bytes) × (serialize_number n ≡ some (length bs ∷ bs))
          × Written n bs 8)
unfolding serialize_number
serialize_number_lem n h = elim (Bool-cases (leb 1 n && leb n 16)) [
  | inl small ↦ inl (ground arith, ground arith, ground arith)
  | inr large ↦
      let (bs, e, w) = number_loop_total 7 1 n (omega arith) (omega arith) in
      inr (ground (arith, large), bs, rw (large, e), w)
]

-- A number from 2^63 on makes it write past its nine-byte buffer, which panics.
pub serialize_number_panics : (n : ℕ) → 2 ^ 63 ≤ n → serialize_number n ≡ none
unfolding serialize_number
serialize_number_panics n h = ground (arith, number_loop_panics 7 1 n (omega arith) (omega arith))
