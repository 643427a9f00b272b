-- ===== src/Utils/Compact.antt =====
-- utils/utils.go: BigIntFromBitsBytes and BigIntFromBitsHex, the target that compact bits stand for.
use not_only_mining_pool.Common.{
  ℕ, true, false, leb, if◌then◌else◌, ◌/◌, ◌+◌, ◌-◌, ◌*◌, ◌%◌, ◌^◌, Option, none, some, [], ◌∷◌,
  Bytes,
}
use not_only_mining_pool.Utils.Hex.{hex_decode, is_hex}

-- big.Int's SetBytes: the bytes highest first.
unfoldable pub get_be : ℕ → Bytes → ℕ
get_be acc [] = acc
get_be acc (b ∷ bs) = get_be (acc * 256 + b) bs

-- `bytesNumber-3` is a difference of bytes, so it wraps. An empty slice panics: `none`.
unfoldable pub big_int_from_bits_bytes : Bytes → Option ℕ
unfolding get_be
big_int_from_bits_bytes [] = none
big_int_from_bits_bytes (n ∷ bits) = some (get_be 0 bits * 2 ^ (8 * ((n + 256 - 3) % 256)))

-- A text that is not hexadecimal panics.
unfoldable pub big_int_from_bits_hex : Bytes → Option ℕ
unfolding big_int_from_bits_bytes
big_int_from_bits_hex bits = elim (is_hex bits) [
  | true ↦ big_int_from_bits_bytes (hex_decode bits)
  | false ↦ none
]

-- Bitcoin's SetCompact of a word: its highest byte is the size of the number, and its lowest 23 bits are the
-- number's highest three bytes.
pub set_compact : ℕ → ℕ
set_compact bits =
    let size = bits / 0x1000000 in
    let word = bits % 0x800000 in
    if leb size 3 then word / 256 ^ (3 - size) else word * 256 ^ (size - 3)
