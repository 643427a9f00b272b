-- ===== src/Engine/Cryptonote/Blob/At.antt =====
-- engine/cryptonote/blob.go: reading at a position of a blob, behind which some bytes are known.
use not_only_mining_pool.Common.{
  ℕ, ◌+◌, ◌-◌, ◌≤◌, ◌<◌, ◌^◌, ◌≡◌, refl, sym, ap, ap₂, ◌∙◌, some, [], ◌∷◌, ◌++◌, append_assoc,
  Bytes, length, length-append, take-length-append, drop-length-append, get_elem?, arith, ltb,
  false,
}
use not_only_mining_pool.Engine.Cryptonote.Varint.{good, read_varint, varint}
use not_only_mining_pool.Engine.Cryptonote.Varint.RoundTrip.{read_varint-varint}
use not_only_mining_pool.Engine.Cryptonote.Blob.{slice, within}

-- The blob goes on with `rest` at the position.
abbrev pub At : Bytes → ℕ → Bytes → Type 0
At b pos rest = (pre : Bytes) × (b ≡ pre ++ rest) × (pos ≡ length pre)

pub At-start : (b : Bytes) → At b 0 b
At-start b = ([], refl, refl)

pub At-append :
    (b : Bytes) (pos : ℕ) (x y z : Bytes) → At b pos ((x ++ y) ++ z) → At b pos (x ++ (y ++ z))
At-append b pos x y z (pre, e, p) = (pre, e ∙ ap (λ t. pre ++ t) (append_assoc x y z), p)

pub At-behind :
    (b : Bytes) (pos : ℕ) (x rest : Bytes) → At b pos (x ++ rest) → At b (pos + length x) rest
At-behind b pos x rest (pre, e, p) =
    (pre ++ x, e ∙ sym (append_assoc pre x rest), omega (arith, p, length-append pre x))

pub At-varint :
    (b : Bytes) (pos v : ℕ) (rest : Bytes)
    → v < 2 ^ 64
    → At b pos (varint v ++ rest)
    → (read_varint b pos ≡ good (v, pos + length (varint v))) × At b (pos + length (varint v)) rest
At-varint b pos v rest h (pre, e, p) = (
  ap₂ read_varint e p
      ∙ read_varint-varint pre rest v h
      ∙ ap (λ n. good (v, n + length (varint v))) (sym p),
  At-behind b pos (varint v) rest (pre, e, p),
)

get_behind : (pre rest : Bytes) (c : ℕ) → get_elem? (pre ++ (c ∷ rest)) (length pre) ≡ some c
get_behind [] rest c = refl
get_behind (x ∷ pre) rest c = get_behind pre rest c

pub At-byte :
    (b : Bytes) (pos c : ℕ) (rest : Bytes)
    → At b pos (c ∷ rest)
    → (get_elem? b pos ≡ some c) × At b (pos + 1) rest
At-byte b pos c rest (pre, e, p) =
    (ap₂ get_elem? e p ∙ get_behind pre rest c, At-behind b pos (c ∷ []) rest (pre, e, p))

pub At-end : (b : Bytes) (pos : ℕ) (rest : Bytes) → At b pos rest → pos + length rest ≡ length b
At-end b pos rest (pre, e, p) = omega (arith, p, ap length e, length-append pre rest)

pub within-At : (b : Bytes) (pos : ℕ) (rest : Bytes) → At b pos rest → within b pos ≡ good pos
unfolding within
within-At b pos rest at =
    let e : ltb (length b) pos ≡ false = ground (arith, At-end b pos rest at) in rw e refl

pub slice-At :
    (b : Bytes) (pos : ℕ) (x rest : Bytes) → At b pos (x ++ rest) → slice b pos (pos + length x) ≡ x
unfolding slice
slice-At b pos x rest (pre, e, p) =
    let size : pos + length x - pos ≡ length x = omega arith in
    rw (size, e, p, drop-length-append pre (x ++ rest)) (take-length-append x rest)

-- A number in front of more of the same text.
pub At-number :
    (b : Bytes) (pos v : ℕ) (y z : Bytes)
    → v < 2 ^ 64
    → At b pos ((varint v ++ y) ++ z)
    → (read_varint b pos ≡ good (v, pos + length (varint v)))
      × At b (pos + length (varint v)) (y ++ z)
At-number b pos v y z h at = At-varint b pos v (y ++ z) h (At-append b pos (varint v) y z at)

-- What stands at a position is no longer than the blob.
pub length-At : (b : Bytes) (pos : ℕ) (x rest : Bytes) → At b pos (x ++ rest) → length x ≤ length b
length-At b pos x rest at = omega (arith, At-end b pos (x ++ rest) at, length-append x rest)
