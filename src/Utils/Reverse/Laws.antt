-- ===== src/Utils/Reverse/Laws.antt =====
-- utils/utils.go: the loop of ReverseBytes.
use mathlib.Core.List.{reverse-cons, reverse-reverse}
use not_only_mining_pool.Common.{
  ℕ, zero, suc, ◌+◌, ◌-◌, ◌<◌, ◌≡◌, refl, sym, ap, ◌∙◌, ◌||◌, ◌≢◌, inl, inr, [], ◌∷◌, Bytes, length,
  get_or, set, ltb, if◌then◌else◌, reverse, get_elem?, arith, Bool-cases, length-set,
  length-reverse, get_elem?-set_self, get_elem?-set_ne, get_elem?-append, get_elem?-append_left,
  get_elem?_above, get_elem?_ext, get_elem?-eq-get_or,
}
use native.Mathlib.Decide.{dec_lt, ℕ_discrete}
use not_only_mining_pool.Utils.Reverse.{reverse_loop, reverse_bytes}

get_elem?-reverse :
    (xs : Bytes) (k : ℕ)
    → k < length xs
    → get_elem? (reverse xs) k ≡ get_elem? xs (length xs - 1 - k)
get_elem?-reverse [] k h = absurd (omega arith)
get_elem?-reverse (x ∷ xs) k h = rw (reverse-cons x xs) (elim (dec_lt k (length xs)) [
  | yes front ↦
      get_elem?-append_left (reverse xs) (x ∷ []) k (omega (arith, length-reverse xs))
      ∙ get_elem?-reverse xs k front
      ∙ sym (shift (omega arith))
  | no back ↦
      let at_end : k ≡ length (reverse xs) + 0 = omega (arith, length-reverse xs) in
      let at_front : suc (length xs) - 1 - k ≡ 0 = omega arith in
      rw (at_end, get_elem?-append (reverse xs) (x ∷ []) 0, ← at_end, at_front)
])
  where
    shift :
        suc (length xs - 1 - k) ≡ suc (length xs) - 1 - k
        → get_elem? (x ∷ xs) (suc (length xs) - 1 - k) ≡ get_elem? xs (length xs - 1 - k)
    shift e = rw (← e)

-- Where the loop has a byte from: outside `[i, j]` from its mirror place.
abbrev origin : ℕ → ℕ → ℕ → ℕ → ℕ
origin n i j k = if ltb k i || ltb j k then n - 1 - k else k

moved :
    (n i j : ℕ)
    → i < j
    → i + j + 1 ≡ n
    → (origin n (i + 1) (j - 1) j ≡ i)
      × (origin n (i + 1) (j - 1) i ≡ j)
      × (origin n i j i ≡ i)
      × (origin n i j j ≡ j)
moved n i j lt mid = ground arith

kept :
    (n i j k : ℕ)
    → i < j
    → i + j + 1 ≡ n
    → k ≢ j
    → k ≢ i
    → origin n i j k ≡ origin n (i + 1) (j - 1) k
kept n i j k lt mid other inner = ground arith

-- A round mirrors the places `i` and `j`, and touches no other.
swap_step :
    (a b : Bytes) (i j : ℕ)
    → i < j
    → i + j + 1 ≡ length a
    → length b ≡ length a
    → ((k : ℕ) → k < length a → get_elem? b k ≡ get_elem? a (origin (length a) i j k))
    → (k : ℕ) → k < length a
    → get_elem? (set (set b i (get_or b j 0)) j (get_or b i 0)) k
      ≡ get_elem? a (origin (length a) (i + 1) (j - 1) k)
swap_step a b i j lt mid len from k h = elim (ℕ_discrete k j) [
  | yes last ↦
      rw (last, (moved (length a) i j lt mid).0)
        (get_elem?-set_self (set b i bj) j bi (omega (arith, length-set b i bj))
          ∙ sym (get_elem?-eq-get_or b i 0 (omega arith))
          ∙ from i (omega arith)
          ∙ ap (get_elem? a) ((moved (length a) i j lt mid).2))
  | no other ↦ elim (ℕ_discrete k i) [
    | yes first ↦
        rw (first, (moved (length a) i j lt mid).1)
          (get_elem?-set_ne (set b i bj) j i bi (omega arith)
            ∙ get_elem?-set_self b i bj (omega arith)
            ∙ sym (get_elem?-eq-get_or b j 0 (omega arith))
            ∙ from j (omega arith)
            ∙ ap (get_elem? a) ((moved (length a) i j lt mid).3))
    | no inner ↦
        get_elem?-set_ne (set b i bj) j k bi (omega arith)
        ∙ get_elem?-set_ne b i k bj (omega arith)
        ∙ from k h
        ∙ ap (get_elem? a) (kept (length a) i j k lt mid other inner)
  ]
]
  where
    bi : ℕ
    bi = get_or b i 0

    bj : ℕ
    bj = get_or b j 0

reverse_loop_lem :
    (a : Bytes) (fuel : ℕ) (b : Bytes) (i j : ℕ)
    → j < fuel + i
    → i + j + 1 ≡ length a
    → length b ≡ length a
    → ((k : ℕ) → k < length a → get_elem? b k ≡ get_elem? a (origin (length a) i j k))
    → (length (reverse_loop fuel b i j) ≡ length a)
      × ((k : ℕ)
          → k < length a
          → get_elem? (reverse_loop fuel b i j) k ≡ get_elem? a (length a - 1 - k))
unfolding reverse_loop
reverse_loop_lem a zero b i j room mid len from =
    (len, λ k h. from k h ∙ ap (get_elem? a) (ground arith))
reverse_loop_lem a (suc fuel) b i j room mid len from = elim (Bool-cases (ltb i j)) [
  | inl more ↦ rw more (
      reverse_loop_lem a fuel _ (i + 1) (j - 1) (ground arith) (ground arith)
        (length-set (set b i (get_or b j 0)) j (get_or b i 0) ∙ length-set b i (get_or b j 0) ∙ len)
        (swap_step a b i j (ground arith) mid len from))
  | inr done ↦ rw done (len, λ k h. from k h ∙ ap (get_elem? a) (ground arith))
]

-- ReverseBytes, a loop of swaps, reverses its argument.
pub reverse_bytes-eq-reverse : (b : Bytes) → reverse_bytes b ≡ reverse b
unfolding reverse_bytes
reverse_bytes-eq-reverse [] = refl
reverse_bytes-eq-reverse (x ∷ xs) = get_elem?_ext _ _ λ k. elim (dec_lt k (suc (length xs))) [
  | yes h ↦ result.1 k h ∙ sym (get_elem?-reverse (x ∷ xs) k h)
  | no h ↦
      get_elem?_above _ k (omega (arith, result.0))
      ∙ sym (get_elem?_above _ k (omega (arith, length-reverse (x ∷ xs))))
]
  where
    result :
        (length (reverse_loop (suc (length xs)) (x ∷ xs) 0 (suc (length xs) - 1)) ≡ suc (length xs))
        × ((k : ℕ)
            → k < suc (length xs)
            → get_elem? (reverse_loop (suc (length xs)) (x ∷ xs) 0 (suc (length xs) - 1)) k
              ≡ get_elem? (x ∷ xs) (suc (length xs) - 1 - k))
    result =
        reverse_loop_lem (x ∷ xs) (suc (length xs)) (x ∷ xs) 0 _ (omega arith) (omega arith) refl
          λ k h. ap (get_elem? (x ∷ xs)) (ground arith)

-- Twice gives the slice back, and the length stays.
pub reverse_bytes_twice :
    (b : Bytes) → (reverse_bytes (reverse_bytes b) ≡ b) × (length (reverse_bytes b) ≡ length b)
reverse_bytes_twice b = (
  reverse_bytes-eq-reverse (reverse_bytes b)
      ∙ ap reverse (reverse_bytes-eq-reverse b)
      ∙ reverse-reverse b,
  ap length (reverse_bytes-eq-reverse b) ∙ length-reverse b,
)
