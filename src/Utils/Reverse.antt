-- ===== src/Utils/Reverse.antt =====
-- utils/utils.go: ReverseBytes and ReverseByteOrder, loops on a copy of the slice.
pub mod Laws
use not_only_mining_pool.Common.{
  ℕ, zero, suc, ◌+◌, ◌-◌, ◌*◌, ◌<◌, Option, none, some, [], ◌∷◌, ◌++◌, Bytes, length, get_or, set,
  take, drop, ltb, if◌then◌else◌, reverse,
}

-- The loop of ReverseBytes from the indices `i` and `j`. Each round brings them two closer, so the
-- length is enough fuel.
unfoldable pub reverse_loop : ℕ → Bytes → ℕ → ℕ → Bytes
reverse_loop zero b i j = b
reverse_loop (suc fuel) b i j =
    let rest = reverse_loop fuel (set (set b i (get_or b j 0)) j (get_or b i 0)) (i + 1) (j - 1) in
    if ltb i j then rest else b

-- On an empty slice Go's `j` starts at -1 and here at 0: either way the loop is not entered.
unfoldable pub reverse_bytes : Bytes → Bytes
unfolding reverse_loop
reverse_bytes b = reverse_loop (length b) b 0 (length b - 1)

-- One round of ReverseByteOrder: the four bytes at `4 * i` turn round. `none` is the panic of
-- encoding/binary on a slice that is shorter.
unfoldable pub swap_word : ℕ → Bytes → Option Bytes
swap_word i b =
    if ltb (length b) (4 * i + 4)
    then none
    else some (take (4 * i) b ++ (reverse (take 4 (drop (4 * i) b)) ++ drop (4 * i + 4) b))

-- The words from `i` on, `fuel` of them.
unfoldable pub swap_words : ℕ → ℕ → Bytes → Option Bytes
swap_words zero i b = some b
swap_words (suc fuel) i b = elim (swap_word i b) [
  | none ↦ none
  | some b' ↦ swap_words fuel (i + 1) b'
]

unfoldable pub reverse_byte_order : Bytes → Option Bytes
unfolding swap_word swap_words
reverse_byte_order b = elim (swap_words 8 0 b) [ none ↦ none | some b' ↦ some (reverse_bytes b') ]
