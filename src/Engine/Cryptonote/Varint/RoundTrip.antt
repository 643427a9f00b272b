-- ===== src/Engine/Cryptonote/Varint/RoundTrip.antt =====
-- engine/cryptonote/blob.go: a varint is read back.
use native.Mathlib.Nat.{add-mul, mul_assoc}
use not_only_mining_pool.Common.{
  ℕ, zero, suc, ◌+◌, ◌*◌, ◌/◌, ◌%◌, ◌^◌, ◌<◌, ◌≡◌, refl, sym, subst, ap, ap₂, ◌∙◌, some, [], ◌∷◌,
  ◌++◌, Bytes, get_elem?, length, length-append, append_assoc, arith, ltb, lt→ltb, ltb→lt,
  Bool-cases, inl, inr, true, false,
}
use not_only_mining_pool.Common.Powers.{pow_add}
use not_only_mining_pool.Engine.Cryptonote.Varint.{
  good, read_loop, read_varint, varint_loop, varint,
}

-- A digit and what is above it.
split_digit : (v p : ℕ) → v % 128 * p + v / 128 * (p * 128) ≡ v * p
split_digit v p =
    let parts : v ≡ v % 128 + v / 128 * 128 = omega arith in
    let swap : 128 * p ≡ p * 128 = omega arith in
    let whole : v * p ≡ v % 128 * p + v / 128 * (p * 128) =
      ap (λ n. n * p) parts
      ∙ add-mul (v % 128) (v / 128 * 128) p
      ∙ ap (λ n. v % 128 * p + n) (mul_assoc (v / 128) 128 p ∙ ap (λ n. v / 128 * n) swap) in
    sym whole

get_byte : (pre rest : Bytes) (c : ℕ) → get_elem? (pre ++ (c ∷ rest)) (length pre) ≡ some c
get_byte [] rest c = refl
get_byte (x ∷ pre) rest c = get_byte pre rest c

-- One round of the loop.
read_loop_last :
    (left : ℕ) (b : Bytes) (pos val shift c : ℕ)
    → get_elem? b pos ≡ some c
    → ltb c 128 ≡ true
    → read_loop (suc left) b pos val shift ≡ good (val + c % 128 * 2 ^ shift % 2 ^ 64, pos + 1)
unfolding read_loop
read_loop_last left b pos val shift c e h = rw (read_loop, e, h) refl

read_loop_more :
    (left : ℕ) (b : Bytes) (pos val shift c : ℕ)
    → get_elem? b pos ≡ some c
    → ltb c 128 ≡ false
    → read_loop (suc left) b pos val shift
      ≡ read_loop left b (pos + 1) (val + c % 128 * 2 ^ shift % 2 ^ 64) (shift + 7)
unfolding read_loop
read_loop_more left b pos val shift c e h = rw (read_loop, e, h) refl

-- The last byte of a number that is a digit.
read_digit :
    (left v shift val : ℕ) (pre rest : Bytes)
    → v < 128
    → v * 2 ^ shift < 2 ^ 64
    → read_loop (suc left) (pre ++ (v ∷ rest)) (length pre) val shift
      ≡ good (val + v * 2 ^ shift, length pre + 1)
read_digit left v shift val pre rest d h =
    let digit : v % 128 ≡ v = omega arith in
    let fits : v * 2 ^ shift % 2 ^ 64 ≡ v * 2 ^ shift = omega arith in
    read_loop_last left _ (length pre) val shift v (get_byte pre rest v) (lt→ltb v 128 d)
    ∙ rw (digit, fits) refl

read_loop-varint_loop :
    (k v shift val : ℕ) (pre rest : Bytes)
    → shift + 7 * k ≡ 63
    → v * 2 ^ shift < 2 ^ 64
    → read_loop (suc k) (pre ++ (varint_loop k v ++ rest)) (length pre) val shift
      ≡ good (val + v * 2 ^ shift, length pre + length (varint_loop k v))
unfolding varint_loop
read_loop-varint_loop zero v shift val pre rest e h =
    let top : shift ≡ 63 = omega arith in
    let small : v < 2 = omega (arith, subst (λ n. v * 2 ^ n < 2 ^ 64) top h) in
    let byte : v % 256 ≡ v = omega arith in
    rw byte (read_digit zero v shift val pre rest (omega arith) h)
read_loop-varint_loop (suc k) v shift val pre rest e h = elim (Bool-cases (ltb v 128)) [
  | inl low ↦ rw low (read_digit (suc k) v shift val pre rest (ltb→lt v 128 low) h)
  | inr high ↦
      let c : ℕ = v % 128 + 128 in
      let more : ltb (v % 128 + 128) 128 ≡ false = ground arith in
      let p : ℕ = 2 ^ shift in
      let power : 2 ^ (shift + 7) ≡ 2 ^ shift * 128 = pow_add 2 shift 7 in
      let parts : v % 128 * 2 ^ shift + v / 128 * (2 ^ shift * 128) ≡ v * 2 ^ shift =
        split_digit v (2 ^ shift) in
      let digit : (v % 128 + 128) % 128 ≡ v % 128 = omega arith in
      let fits : v % 128 * 2 ^ shift % 2 ^ 64 ≡ v % 128 * 2 ^ shift = omega (arith, parts, h) in
      let room : v / 128 * 2 ^ (shift + 7) < 2 ^ 64 = rw power (omega (arith, parts, h)) in
      let ih =
        read_loop-varint_loop k (v / 128) (shift + 7) (val + v % 128 * 2 ^ shift) (pre ++ (c ∷ []))
          rest (omega arith) room in
      let tail : Bytes = varint_loop k (v / 128) ++ rest in
      let list : pre ++ (c ∷ tail) ≡ (pre ++ (c ∷ [])) ++ tail = simp append_assoc in
      let len : length pre + 1 ≡ length (pre ++ (c ∷ [])) = sym (length-append pre (c ∷ [])) in
      let value : val + v % 128 * 2 ^ shift + v / 128 * 2 ^ (shift + 7) ≡ val + v * 2 ^ shift =
        rw power (omega (arith, parts)) in
      let read : length (pre ++ (c ∷ [])) + length (varint_loop k (v / 128))
          ≡ length pre + suc (length (varint_loop k (v / 128))) =
        omega (arith, len) in
      let added : c % 128 * 2 ^ shift % 2 ^ 64 ≡ v % 128 * 2 ^ shift =
        ap (λ n. n * 2 ^ shift % 2 ^ 64) digit ∙ fits in
      rw high (
        read_loop_more (suc k) _ (length pre) val shift c (get_byte pre tail c) more
        ∙ ap (λ n. read_loop (suc k) (pre ++ (c ∷ tail)) (length pre + 1) (val + n) (shift + 7))
            added
        ∙ ap₂ (λ b n. read_loop (suc k) b n (val + v % 128 * 2 ^ shift) (shift + 7)) list len
        ∙ ih
        ∙ ap₂ (λ a b. good (a, b)) value read)
]

-- readVarint reads a uint64 back from what appendVarint wrote, wherever it stands, and goes on behind it.
pub read_varint-varint :
    (pre rest : Bytes) (v : ℕ)
    → v < 2 ^ 64
    → read_varint (pre ++ (varint v ++ rest)) (length pre)
      ≡ good (v, length pre + length (varint v))
unfolding read_varint varint
read_varint-varint pre rest v h =
    let one : 0 + v * 2 ^ 0 ≡ v = omega arith in
    let fits : v * 2 ^ 0 < 2 ^ 64 = omega (arith, one) in
    read_loop-varint_loop 9 v 0 0 pre rest refl fits
    ∙ ap (λ n. good (n, length pre + length (varint_loop 9 v))) one
