-- ===== src/Utils/Search.antt =====
-- utils/utils.go: linear search in a slice of strings or of byte slices. -1 is `none`.
use not_only_mining_pool.Common.{
  ℕ, ◌+◌, ◌≡◌, refl, ◌⊎◌, inl, inr, Bool, true, false, Option, none, some, List, [], ◌∷◌, Bytes,
  Bool-cases, text_eq, if◌then◌else◌,
}

-- The loop of the two functions from index `k` on.
index_from : ℕ → List Bytes → Bytes → Option ℕ
index_from k [] element = none
index_from k (v ∷ vs) element = if text_eq element v then some k else index_from (k + 1) vs element

-- StringsIndexOf
unfoldable pub strings_index_of : List Bytes → Bytes → Option ℕ
unfolding index_from
strings_index_of strs element = index_from 0 strs element

-- BytesIndexOf
unfoldable pub bytes_index_of : List Bytes → Bytes → Option ℕ
unfolding index_from
bytes_index_of strs element = index_from 0 strs element

-- Whether the element is in the list.
unfoldable pub contains : Bytes → List Bytes → Bool
contains element [] = false
contains element (v ∷ vs) = if text_eq element v then true else contains element vs

index_from-contains :
    (k : ℕ) (vs : List Bytes) (e : Bytes)
    → ((contains e vs ≡ false) × (index_from k vs e ≡ none))
      ⊎ ((contains e vs ≡ true) × (i : ℕ) × (index_from k vs e ≡ some i))
unfolding index_from contains
index_from-contains k [] e = inl (refl, refl)
index_from-contains k (v ∷ vs) e = elim (Bool-cases (text_eq e v)) [
  | inl here ↦ inr (rw here, k, rw here)
  | inr there ↦ rw there (index_from-contains (k + 1) vs e)
]

pub strings_index_of-contains :
    (vs : List Bytes) (e : Bytes)
    → ((contains e vs ≡ false) × (strings_index_of vs e ≡ none))
      ⊎ ((contains e vs ≡ true) × (i : ℕ) × (strings_index_of vs e ≡ some i))
unfolding strings_index_of
strings_index_of-contains vs e = index_from-contains 0 vs e
