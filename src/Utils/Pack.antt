-- ===== src/Utils/Pack.antt =====
-- utils/utils.go: the fixed-width integer packers. An argument of Go's type uintN is a number, and
-- of intN its bit pattern; a write keeps the low bits of what it is given, as Go's conversions do.
pub mod RoundTrip
use not_only_mining_pool.Common.{ℕ, zero, suc, ◌/◌, ◌%◌, ◌*◌, ◌^◌, [], ◌∷◌, Bytes}

-- encoding/binary's LittleEndian.PutUintN on `k` bytes.
unfoldable pub put_le : ℕ → ℕ → Bytes
put_le zero n = []
put_le (suc k) n = n % 256 ∷ put_le k (n / 256)

-- encoding/binary's BigEndian.PutUintN on `k` bytes.
unfoldable pub put_be : ℕ → ℕ → Bytes
put_be zero n = []
put_be (suc k) n = n / 256 ^ k % 256 ∷ put_be k n

unfoldable pub pack_uint64_le : ℕ → Bytes
pack_uint64_le n = put_le 8 n

unfoldable pub pack_int64_be : ℕ → Bytes
pack_int64_be n = put_be 8 n

unfoldable pub pack_uint64_be : ℕ → Bytes
pack_uint64_be n = put_be 8 n

unfoldable pub pack_uint32_le : ℕ → Bytes
pack_uint32_le n = put_le 4 n

unfoldable pub pack_uint32_be : ℕ → Bytes
pack_uint32_be n = put_be 4 n

unfoldable pub pack_int32_be : ℕ → Bytes
pack_int32_be n = put_be 4 n

unfoldable pub pack_uint16_le : ℕ → Bytes
pack_uint16_le n = put_le 2 n

unfoldable pub pack_uint16_be : ℕ → Bytes
pack_uint16_be n = put_be 2 n
