-- ===== src/Utils/Varint/RoundTrip.antt =====
-- A reader of CompactSize integers, written from Bitcoin's format, against VarIntBytes.
use not_only_mining_pool.Common.{
  ℕ, ◌%◌, ◌^◌, ◌<◌, ◌≡◌, ap, ◌∙◌, Option, none, some, [], ◌∷◌, ◌++◌, arith, Bytes, length, take,
  drop, ltb, ◌==◌, if◌then◌else◌, length-append, append_assoc,
}
use not_only_mining_pool.Utils.Pack.{put_le, pack_uint16_le, pack_uint32_le, pack_uint64_le}
use not_only_mining_pool.Utils.Pack.RoundTrip.{
  get_le, get_le-put_le, take-put_le, drop-put_le, length-put_le,
}
use not_only_mining_pool.Utils.Varint.{var_int_bytes, var_string_bytes, serialize_string}

-- A number of `k` bytes and what follows it, if there are so many.
unfoldable pub read_le : ℕ → Bytes → Option (ℕ × Bytes)
read_le k bs = if ltb (length bs) k then none else some (get_le (take k bs), drop k bs)

-- The reader: a byte below 0xfd is the number; 0xfd, 0xfe and 0xff announce 2, 4 and 8 bytes.
unfoldable pub read_var_int : Bytes → Option (ℕ × Bytes)
read_var_int [] = none
read_var_int (b ∷ bs) =
    if ltb b 0xfd
    then some (b, bs)
    else if b == 0xfd
    then read_le 2 bs
    else if b == 0xfe
    then read_le 4 bs
    else read_le 8 bs

pub read_le-put_le :
    (k n : ℕ) (rest : Bytes) → n < 256 ^ k → read_le k (put_le k n ++ rest) ≡ some (n, rest)
unfolding read_le
read_le-put_le k n rest h = ground (
  arith,
  length-append (put_le k n) rest,
  length-put_le k n,
  take-put_le k n rest,
  drop-put_le k n rest,
  get_le-put_le k n h,
)

-- A uint64 is read back from VarIntBytes, whatever bytes follow it.
pub read_var_int-var_int_bytes :
    (n : ℕ) (rest : Bytes) → n < 2 ^ 64 → read_var_int (var_int_bytes n ++ rest) ≡ some (n, rest)
unfolding read_var_int var_int_bytes
read_var_int-var_int_bytes n rest h = ground (
  arith,
  read_le-put_le 2 (n % 2 ^ 16) rest,
  read_le-put_le 4 (n % 2 ^ 32) rest,
  read_le-put_le 8 n rest,
)

-- The two string writers, SerializeString and VarStringBytes, agree on every string.
serialize_string-eq-var_string_bytes : (s : Bytes) → serialize_string s ≡ var_string_bytes s
unfolding serialize_string var_string_bytes var_int_bytes pack_uint16_le pack_uint32_le
    pack_uint64_le
serialize_string-eq-var_string_bytes s = ground arith

-- A string of at most 2^63 - 1 bytes (Go's bound) is read back with its length first: the reader
-- gives its length, and it stands before what follows.
pub read-serialize_string :
    (s rest : Bytes)
    → length s < 2 ^ 63
    → read_var_int (serialize_string s ++ rest) ≡ some (length s, s ++ rest)
unfolding var_string_bytes
read-serialize_string s rest h =
    ap (λ t. read_var_int (t ++ rest)) (serialize_string-eq-var_string_bytes s)
    ∙ ap read_var_int (append_assoc (var_int_bytes (length s)) s rest)
    ∙ read_var_int-var_int_bytes (length s) (s ++ rest) (omega arith)
