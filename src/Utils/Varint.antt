-- ===== src/Utils/Varint.antt =====
-- utils/utils.go: Bitcoin's variable-length integers and length-prefixed strings.
pub mod RoundTrip
use not_only_mining_pool.Common.{ℕ, ◌%◌, ◌^◌, [], ◌∷◌, ◌++◌, Bytes, length, ltb, leb, if◌then◌else◌}
use not_only_mining_pool.Utils.Pack.{put_le, pack_uint16_le, pack_uint32_le, pack_uint64_le}

-- VarIntBytes; `byte(n)`, `uint16(n)` and `uint32(n)` keep the low bits.
unfoldable pub var_int_bytes : ℕ → Bytes
var_int_bytes n =
    if ltb n 0xfd
    then n % 256 ∷ []
    else if leb n 0xffff
    then 0xfd ∷ put_le 2 (n % 2 ^ 16)
    else if leb n 0xffffffff
    then 0xfe ∷ put_le 4 (n % 2 ^ 32)
    else 0xff ∷ put_le 8 n

-- VarStringBytes
unfoldable pub var_string_bytes : Bytes → Bytes
var_string_bytes str = var_int_bytes (length str) ++ str

-- SerializeString
unfoldable pub serialize_string : Bytes → Bytes
serialize_string s =
    if ltb (length s) 253
    then (length s % 256 ∷ []) ++ s
    else if ltb (length s) 0x10000
    then (253 ∷ []) ++ (pack_uint16_le (length s % 2 ^ 16) ++ s)
    else if ltb (length s) 0x100000000
    then (254 ∷ []) ++ (pack_uint32_le (length s % 2 ^ 32) ++ s)
    else (255 ∷ []) ++ (pack_uint64_le (length s) ++ s)
