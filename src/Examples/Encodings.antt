-- ===== src/Examples/Encodings.antt =====
-- The encodings of utils, on short inputs.
use not_only_mining_pool.Common.{
  ℕ, ◌+◌, ◌≡◌, ◌≤◌, ◌<◌, ◌⊎◌, [], ◌∷◌, ◌++◌, Bytes, some, none, codes, length, arith, reverse,
}
use not_only_mining_pool.Utils.Pack.{
  pack_uint64_le, pack_uint64_be, pack_uint32_le, pack_uint32_be, pack_uint16_le, pack_uint16_be,
}
use not_only_mining_pool.Utils.Pack.RoundTrip.{get_le, unpack-pack}
use not_only_mining_pool.Utils.Varint.{var_int_bytes, serialize_string}
use not_only_mining_pool.Utils.Varint.RoundTrip.{
  read_var_int, read_var_int-var_int_bytes, read-serialize_string,
}
use not_only_mining_pool.Utils.Number.{
  serialize_number, Written, serialize_number_lem, serialize_number_panics,
}
use not_only_mining_pool.Utils.Reverse.{reverse_bytes}
use not_only_mining_pool.Utils.Reverse.Laws.{reverse_bytes-eq-reverse}

read_var_int-var_int_bytes_example :
    read_var_int (var_int_bytes 70000 ++ (7 ∷ [])) ≡ some (70000, 7 ∷ [])
read_var_int-var_int_bytes_example = read_var_int-var_int_bytes 70000 (7 ∷ []) (omega arith)

read-serialize_string_example :
    read_var_int (serialize_string (codes "pool") ++ (7 ∷ [])) ≡ some (4, codes "pool" ++ (7 ∷ []))
read-serialize_string_example = read-serialize_string (codes "pool") (7 ∷ []) (omega arith)

abbrev thousand : ℕ
thousand = 1000

serialize_number_lem_example :
    ((1 ≤ 1000) × (1000 ≤ 16) × (serialize_number 1000 ≡ some ((0x50 + 1000) ∷ [])))
    ⊎ (((thousand ≡ 0) ⊎ (16 < 1000))
        × (bs : Bytes) × (serialize_number 1000 ≡ some (length bs ∷ bs))
        × Written 1000 bs 8)
serialize_number_lem_example = serialize_number_lem 1000 (omega arith)

serialize_number_panics_example : serialize_number 9223372036854775808 ≡ none
serialize_number_panics_example = serialize_number_panics 9223372036854775808 (omega arith)

unpack-pack_example :
    ((get_le (pack_uint64_le 5000000000) ≡ 5000000000)
      × (get_le (reverse (pack_uint64_be 5000000000)) ≡ 5000000000))
    × ((get_le (pack_uint32_le 70000) ≡ 70000) × (get_le (reverse (pack_uint32_be 70000)) ≡ 70000))
    × ((get_le (pack_uint16_le 300) ≡ 300) × (get_le (reverse (pack_uint16_be 300)) ≡ 300))
unpack-pack_example = unpack-pack 5000000000 70000 300 (omega arith) (omega arith) (omega arith)

reverse_bytes-eq-reverse_example : reverse_bytes (1 ∷ 2 ∷ 3 ∷ []) ≡ reverse (1 ∷ 2 ∷ 3 ∷ [])
reverse_bytes-eq-reverse_example = reverse_bytes-eq-reverse (1 ∷ 2 ∷ 3 ∷ [])
