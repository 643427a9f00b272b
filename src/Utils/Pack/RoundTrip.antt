-- ===== src/Utils/Pack/RoundTrip.antt =====
-- What a packed integer is read back as.
use mathlib.Core.List.{reverse-append, reverse-reverse}
use native.Mathlib.Nat.{div-add-mod, pow-suc, mul_comm, div-div-eq-div-mul}
use not_only_mining_pool.Common.{
  ℕ, zero, suc, ◌+◌, ◌*◌, ◌/◌, ◌%◌, ◌^◌, ◌<◌, ◌≡◌, refl, ap, sym, subst, ◌∙◌, [], ◌∷◌, ◌++◌,
  reverse, arith, Bytes, length, take, drop, AllBytes, take-length-append, drop-length-append,
}
use not_only_mining_pool.Utils.Pack.{
  put_le, put_be, pack_uint64_le, pack_uint64_be, pack_uint32_le, pack_uint32_be, pack_uint16_le,
  pack_uint16_be,
}

-- The number that bytes spell, lowest first.
unfoldable pub get_le : Bytes → ℕ
get_le [] = 0
get_le (b ∷ bs) = b + 256 * get_le bs

pub length-put_le : (k n : ℕ) → length (put_le k n) ≡ k
unfolding put_le
length-put_le zero n = refl
length-put_le (suc k) n = ap suc (length-put_le k (n / 256))

pub length-put_be : (k n : ℕ) → length (put_be k n) ≡ k
unfolding put_be
length-put_be zero n = refl
length-put_be (suc k) n = ap suc (length-put_be k n)

pub put_le-AllBytes : (k n : ℕ) → AllBytes (put_le k n)
unfolding put_le
put_le-AllBytes zero n = tt
put_le-AllBytes (suc k) n = (omega arith, put_le-AllBytes k (n / 256))

pub get_le-put_le : (k n : ℕ) → n < 256 ^ k → get_le (put_le k n) ≡ n
unfolding put_le get_le
get_le-put_le zero n h = omega arith
get_le-put_le (suc k) n h =
    omega (arith, get_le-put_le k (n / 256) (omega (arith, pow-suc 256 k)), div-add-mod n 256)

-- Bytes written highest first are those written lowest first, turned round.
put_le_last : (k n : ℕ) → put_le (suc k) n ≡ put_le k n ++ (n / 256 ^ k % 256) ∷ []
unfolding put_le
put_le_last zero n = ap (λ b. b % 256 ∷ []) (omega arith)
put_le_last (suc k) n =
    ap (λ t. n % 256 ∷ t)
      (put_le_last k (n / 256)
        ∙ ap (λ q. put_le k (n / 256) ++ (q % 256 ∷ []))
            (div-div-eq-div-mul n 256 (256 ^ k)
              ∙ ap (λ m. n / m) (mul_comm 256 (256 ^ k) ∙ sym (pow-suc 256 k))))

pub put_be-reverse : (k n : ℕ) → put_be k n ≡ reverse (put_le k n)
unfolding put_be
put_be-reverse zero n = unfold put_le in refl
put_be-reverse (suc k) n =
    ap (λ t. n / 256 ^ k % 256 ∷ t) (put_be-reverse k n)
    ∙ sym (ap reverse (put_le_last k n) ∙ reverse-append (put_le k n) (n / 256 ^ k % 256 ∷ []))

-- A reader of `k` bytes takes just what the writer put there.
pub take-put_le : (k n : ℕ) (rest : Bytes) → take k (put_le k n ++ rest) ≡ put_le k n
take-put_le k n rest =
    subst (λ j. take j (put_le k n ++ rest) ≡ put_le k n) (length-put_le k n)
      (take-length-append (put_le k n) rest)

pub drop-put_le : (k n : ℕ) (rest : Bytes) → drop k (put_le k n ++ rest) ≡ rest
drop-put_le k n rest =
    subst (λ j. drop j (put_le k n ++ rest) ≡ rest) (length-put_le k n)
      (drop-length-append (put_le k n) rest)

-- Numbers of their widths are read back from their packed bytes, lowest byte first, and from the
-- big-endian ones turned round.
pub unpack-pack :
    (a b c : ℕ)
    → a < 2 ^ 64
    → b < 2 ^ 32
    → c < 2 ^ 16
    → ((get_le (pack_uint64_le a) ≡ a) × (get_le (reverse (pack_uint64_be a)) ≡ a))
      × ((get_le (pack_uint32_le b) ≡ b) × (get_le (reverse (pack_uint32_be b)) ≡ b))
      × ((get_le (pack_uint16_le c) ≡ c) × (get_le (reverse (pack_uint16_be c)) ≡ c))
unfolding pack_uint64_le pack_uint64_be pack_uint32_le pack_uint32_be pack_uint16_le pack_uint16_be
unpack-pack a b c ha hb hc = (both 8 a ha, both 4 b hb, both 2 c hc)
  where
    both : (k n : ℕ) → n < 256 ^ k → (get_le (put_le k n) ≡ n) × (get_le (reverse (put_be k n)) ≡ n)
    both k n h = (
      get_le-put_le k n h,
      ap (λ bs. get_le (reverse bs)) (put_be-reverse k n)
          ∙ ap get_le (reverse-reverse (put_le k n))
          ∙ get_le-put_le k n h,
    )
