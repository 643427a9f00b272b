-- ===== src/Vardiff/RingBuffer/Window.antt =====
-- A ring buffer against the sliding window of the last `max_size` entries, oldest first.
use native.Mathlib.Nat.{mod-eq_of_lt, mod_self}
use not_only_mining_pool.Common.{
  ℕ, zero, suc, ◌+◌, ◌-◌, ◌%◌, ◌<◌, ◌≤◌, ◌≡◌, refl, sym, ap, ◌∙◌, Bool, true, false, List, [], ◌∷◌,
  ◌++◌, length, set, take, drop, if◌then◌else◌, arith, min, length-append, length-set, append_assoc,
  append-nil, length-drop, length-take, drop-length-append, take-length-append,
}
use not_only_mining_pool.Vardiff.RingBuffer.{RingBuffer, new_ring_buffer, append, size, clear}

abbrev pub Fits : Bool → ℕ → ℕ → ℕ → Type 0
Fits true held room cursor = (held ≡ room) × (cursor < room)
Fits false held room cursor = (held ≡ cursor) × (cursor < room)

module _ {ℓ} {A : Type ℓ} where
  set-append :
      (front : List A) (y x : A) (back : List A)
      → set (front ++ (y ∷ back)) (length front) x ≡ front ++ (x ∷ back)
  set-append [] y x back = refl
  set-append (z ∷ front) y x back = ap (λ t. z ∷ t) (set-append front y x back)

  -- A list cut at a place inside it.
  cut :
      (xs : List A) (c : ℕ)
      → c < length xs
      → (front : List A) × (y : A) × (back : List A) × (xs ≡ front ++ (y ∷ back))
        × (length front ≡ c)
  cut [] c h = absurd (omega arith)
  cut (x ∷ xs) zero h = ([], x, xs, refl, refl)
  cut (x ∷ xs) (suc c) h =
      let (front, y, back, e, l) = cut xs c (omega arith) in
      (x ∷ front, y, back, ap (λ t. x ∷ t) e, ap suc l)

  drop-append_le : (k : ℕ) (xs ys : List A) → k ≤ length xs → drop k (xs ++ ys) ≡ drop k xs ++ ys
  drop-append_le zero xs ys h = refl
  drop-append_le (suc k) [] ys h = absurd (omega arith)
  drop-append_le (suc k) (x ∷ xs) ys h = drop-append_le k xs ys (omega arith)

  drop-drop : (j k : ℕ) (xs : List A) → drop j (drop k xs) ≡ drop (k + j) xs
  drop-drop j zero xs = let e : 0 + j ≡ j = omega arith in rw e
  drop-drop zero (suc k) [] = let e : suc k + 0 ≡ suc k = omega arith in rw e
  drop-drop (suc j) (suc k) [] = let e : suc k + suc j ≡ suc (k + suc j) = omega arith in rw e
  drop-drop j (suc k) (x ∷ xs) =
      let e : suc k + j ≡ suc (k + j) = omega arith in rw e (drop-drop j k xs)

  -- After a write over the oldest entry, with the cursor moved on: the case of a cursor at the end,
  -- and that of one before it.
  rotated :
      (front : List A) (y x : A) (back : List A) (d : ℕ)
      → d ≡ (length front + 1) % (length front + suc (length back))
      → drop d (front ++ (x ∷ back)) ++ take d (front ++ (x ∷ back)) ≡ (back ++ front) ++ (x ∷ [])
  rotated front y x [] d e =
      let wrap : d ≡ 0 = omega (arith, mod_self (length front + 1)) in rw (wrap, append-nil)
  rotated front y x (z ∷ zs) d e =
      let here : d ≡ length (front ++ (x ∷ [])) = omega (
        arith,
        mod-eq_of_lt {n = length front + 1} {m = length front + suc (suc (length zs))}
            (omega arith),
        length-append front (x ∷ []),
      ) in
      rw
        (
          here,
          ← append_assoc front (x ∷ []) (z ∷ zs),
          drop-length-append (front ++ (x ∷ [])) (z ∷ zs),
          take-length-append (front ++ (x ∷ [])) (z ∷ zs),
        )
        (sym (append_assoc (z ∷ zs) front (x ∷ [])))

module _ {ℓ} {A : Type ℓ} where
  pub record IsValid (rb : RingBuffer A) : Type ℓ where
    pub room : 0 < rb.max_size
    pub fits : Fits rb.is_full (length rb.values) rb.max_size rb.cursor

  -- The entries of the buffer, oldest first.
  unfoldable pub contents : RingBuffer A → List A
  contents rb =
      if rb.is_full then drop rb.cursor rb.values ++ take rb.cursor rb.values else rb.values

  -- The last `n` of a list.
  unfoldable pub last_n : ℕ → List A → List A
  last_n n xs = drop (length xs - n) xs

  pub new-IsValid : (n : ℕ) → 0 < n → IsValid (new_ring_buffer n)
  unfolding new_ring_buffer
  new-IsValid n h = record { room = h; fits = (refl, h) }

  pub append-IsValid : (rb : RingBuffer A) (x : A) → IsValid rb → IsValid (append rb x)
  unfolding append
  append-IsValid rb x v =
      ground (arith, length-set rb.values rb.cursor x, length-append rb.values (x ∷ []))

  pub max_size-append : (rb : RingBuffer A) (x : A) → (append rb x).max_size ≡ rb.max_size
  unfolding append
  max_size-append rb x = ground arith

  -- The contents after a write over the oldest entry, at `c`.
  rotate_write :
      (xs : List A) (c : ℕ) (x : A)
      → c < length xs
      → let d = (c + 1) % length xs in
        drop d (set xs c x) ++ take d (set xs c x) ≡ drop 1 ((drop c xs ++ take c xs) ++ (x ∷ []))
  rotate_write xs c x h =
      let (front, y, back, e, l) = cut xs c h in
      rw
        (
          e,
          ← l,
          set-append front y x back,
          drop-length-append front (y ∷ back),
          take-length-append front (y ∷ back),
        )
        (rotated front y x back _
          (ap (λ m. (length front + 1) % m) (length-append front (y ∷ back))))

  -- Append slides the window of the last `max_size` entries by one.
  pub contents-append :
      (rb : RingBuffer A) (x : A)
      → IsValid rb
      → contents (append rb x) ≡ last_n rb.max_size (contents rb ++ (x ∷ []))
  unfolding contents append last_n
  contents-append rb x v = ground (
    arith,
    rotate_write rb.values rb.cursor x,
    append-nil (rb.values ++ (x ∷ [])),
    length-append rb.values (x ∷ []),
    length-append (drop rb.cursor rb.values ++ take rb.cursor rb.values) (x ∷ []),
    length-append (drop rb.cursor rb.values) (take rb.cursor rb.values),
    length-drop rb.cursor rb.values,
    length-take rb.cursor rb.values,
  )

  pub length-contents : (rb : RingBuffer A) → IsValid rb → length (contents rb) ≡ size rb
  unfolding contents size
  length-contents rb v = ground (
    arith,
    length-append (drop rb.cursor rb.values) (take rb.cursor rb.values),
    length-drop rb.cursor rb.values,
    length-take rb.cursor rb.values,
  )

  size-le : (rb : RingBuffer A) → IsValid rb → size rb ≤ rb.max_size
  unfolding size
  size-le rb v = ground arith

  last_n_all : (n : ℕ) (xs : List A) → length xs ≤ n → last_n n xs ≡ xs
  unfolding last_n
  last_n_all n xs h = let e : length xs - n ≡ 0 = omega arith in rw e

  last_n-append : (n : ℕ) (ys xs : List A) → last_n n (last_n n ys ++ xs) ≡ last_n n (ys ++ xs)
  unfolding last_n
  last_n-append n ys xs =
      rw
        (
          ← drop-append_le (length ys - n) ys xs (omega arith),
          drop-drop (length (drop (length ys - n) (ys ++ xs)) - n) (length ys - n) (ys ++ xs),
        )
        (ap (λ k. drop k (ys ++ xs))
          (omega (arith, length-append ys xs, length-drop (length ys - n) (ys ++ xs))))

  -- A run of Append.
  unfoldable pub append_all : RingBuffer A → List A → RingBuffer A
  append_all rb [] = rb
  append_all rb (x ∷ xs) = append_all (append rb x) xs

  contents-append_all :
      (xs : List A) (rb : RingBuffer A)
      → IsValid rb
      → IsValid (append_all rb xs)
        × (contents (append_all rb xs) ≡ last_n rb.max_size (contents rb ++ xs))
        × ((append_all rb xs).max_size ≡ rb.max_size)
  unfolding append_all
  contents-append_all [] rb v = (
    v,
    rw (append-nil (contents rb)) (
        sym (
          last_n_all rb.max_size (contents rb)
            (omega (arith, length-contents rb v, size-le rb v)))),
    refl,
  )
  contents-append_all (x ∷ xs) rb v =
      let (v', e, m) = contents-append_all xs (append rb x) (append-IsValid rb x v) in
      (
        v',
        e
            ∙ ap (λ n. last_n n (contents (append rb x) ++ xs)) (max_size-append rb x)
            ∙ ap (λ c. last_n rb.max_size (c ++ xs)) (contents-append rb x v)
            ∙ last_n-append rb.max_size (contents rb ++ (x ∷ [])) xs
            ∙ ap (last_n rb.max_size) (append_assoc (contents rb) (x ∷ []) xs),
        m ∙ max_size-append rb x,
      )

  -- After any run of Append on a new buffer of positive size `n`, the buffer holds the last `n`
  -- entries of the run, oldest first, and Size is their number.
  pub window_lem :
      (n : ℕ) (xs : List A)
      → 0 < n
      → (contents (append_all (new_ring_buffer n) xs) ≡ last_n n xs)
        × (size (append_all (new_ring_buffer n) xs) ≡ min n (length xs))
  unfolding new_ring_buffer
  window_lem n xs h =
      let (v, e, m) = contents-append_all xs (new_ring_buffer n) (new-IsValid n h) in
      let held : contents (append_all (new_ring_buffer n) xs) ≡ last_n n xs =
        unfold contents in e in
      (
        held,
        sym (length-contents (append_all (new_ring_buffer n) xs) v)
            ∙ ap length held
            ∙ unfold last_n in omega (arith, length-drop (length xs - n) xs),
      )

  -- Clear empties a valid buffer, and leaves it as new.
  pub clear-IsValid :
      (rb : RingBuffer A)
      → IsValid rb
      → IsValid (clear rb) × (clear rb ≡ new_ring_buffer rb.max_size)
  unfolding clear new_ring_buffer
  clear-IsValid rb v = (record { room = v.room; fits = (refl, v.room) }, refl)
