-- ===== src/Engine/Cryptonote/Varint.antt =====
-- engine/cryptonote/blob.go: readVarint and appendVarint.
pub mod RoundTrip
use not_only_mining_pool.Common.{
  ℕ, zero, suc, ◌+◌, ◌*◌, ◌/◌, ◌%◌, ◌^◌, Option, none, some, List, [], ◌∷◌, Bytes, get_elem?, ltb,
  if◌then◌else◌,
}

-- What parsing ends in: a value, an error, or a panic.
pub data Parse {ℓ} (A : Type ℓ) : Type ℓ where
  good : A → Parse A
  bad : Parse A
  panics : Parse A

infixl 5 ◌>>=◌
abbrev pub ◌>>=◌ {ℓ κ} : {A : Type ℓ} {B : Type κ} → Parse A → (A → Parse B) → Parse B
good a >>= f = f a
bad >>= f = bad
panics >>= f = panics

-- The loop of readVarint from a byte on, with the rounds that are left. Below the shift are the bits of `val`, so
-- that `|=` adds; `<<` drops what is beyond 64 bits.
unfoldable pub read_loop : ℕ → Bytes → ℕ → ℕ → ℕ → Parse (ℕ × ℕ)
read_loop zero b pos val shift = bad
read_loop (suc left) b pos val shift = elim (get_elem? b pos) [
  | none ↦ bad
  | some c ↦
      let val' = val + c % 128 * 2 ^ shift % 2 ^ 64 in
      let rest = read_loop left b (pos + 1) val' (shift + 7) in
      if ltb c 128 then good (val', pos + 1) else rest
]

-- readVarint: the shifts are 0, 7, ... 63.
unfoldable pub read_varint : Bytes → ℕ → Parse (ℕ × ℕ)
read_varint b pos = read_loop 10 b pos 0 0

-- appendVarint's bytes. A uint64 has at most nine bytes in front of its last.
unfoldable pub varint_loop : ℕ → ℕ → Bytes
varint_loop zero v = (v % 256) ∷ []
varint_loop (suc k) v =
    let rest = varint_loop k (v / 128) in if ltb v 128 then v ∷ [] else (v % 128 + 128) ∷ rest

unfoldable pub varint : ℕ → Bytes
varint v = varint_loop 9 v
