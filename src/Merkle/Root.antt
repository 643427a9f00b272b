-- ===== src/Merkle/Root.antt =====
-- The Merkle root by its definition, against the steps.
use not_only_mining_pool.Common.{
  ℕ, zero, suc, ◌%◌, ◌+◌, ◌≤◌, ◌<◌, ◌≡◌, refl, ap, ◌∙◌, List, [], ◌∷◌, ◌++◌, arith, Bytes, length,
  get_or, last_or, leb, ◌==◌, if◌then◌else◌, append_assoc, Bool-cases, false, inl, inr, subst, sym,
  length-append,
}
use not_only_mining_pool.Merkle.{
  Hasher, range_steps, hash_pairs, steps_loop, calculate_steps, with_first,
}

range_done : (fuel i stop step : ℕ) → stop ≤ i → range_steps (suc fuel) i stop step ≡ []
unfolding range_steps
range_done fuel i stop step h = ground arith

range_more :
    (fuel i stop step : ℕ)
    → i < stop
    → range_steps (suc fuel) i stop step ≡ i ∷ range_steps fuel (i + step) stop step
unfolding range_steps
range_more fuel i stop step h = ground arith

module _ (hasher : Hasher) where
  -- One level of the tree: neighbours are hashed together, the last of an odd number with itself.
  unfoldable pub parents : List Bytes → List Bytes
  parents [] = []
  parents (x ∷ []) = hasher (x ++ x) ∷ []
  parents (x ∷ y ∷ l) = hasher (x ++ y) ∷ parents l

  -- Level after level down to one hash. The fuel is the number of levels at most.
  unfoldable pub root : ℕ → List Bytes → Bytes
  root fuel [] = []
  root fuel (x ∷ []) = x
  root zero (x ∷ y ∷ l) = []
  root (suc fuel) (x ∷ y ∷ l) = root fuel (parents (x ∷ y ∷ l))

  pub merkle_root : List Bytes → Bytes
  unfolding root
  merkle_root l = root (length l) l

  length-parents_le : (l : List Bytes) → length (parents l) ≤ length l
  unfolding parents
  length-parents_le [] = omega arith
  length-parents_le (x ∷ []) = omega arith
  length-parents_le (x ∷ y ∷ l) = omega (arith, length-parents_le l)

  -- The level with its last hash doubled if their number is odd.
  padded : List Bytes → List Bytes
  padded [] = []
  padded (x ∷ []) = x ∷ x ∷ []
  padded (x ∷ y ∷ l) = x ∷ y ∷ padded l

  padded_lem :
      (l : List Bytes) (d : Bytes)
      → (if length l % 2 == 0 then l else l ++ (last_or l d ∷ [])) ≡ padded l
  unfolding padded
  padded_lem [] d = refl
  padded_lem (x ∷ []) d = refl
  padded_lem (x ∷ y ∷ l) d =
      let parity : (suc (suc (length l)) % 2 == 0) ≡ (length l % 2 == 0) = ground arith in
      rw parity (elim (Bool-cases (length l % 2 == 0)) [
        | inl even ↦ rw even (ap (λ t. x ∷ y ∷ t) (rw even at (padded_lem l y)))
        | inr odd ↦ rw odd (ap (λ t. x ∷ y ∷ t) (rw odd at (padded_lem l y)))
      ])

  get_or-append :
      (pre l : List Bytes) (i : ℕ) → get_or (pre ++ l) (length pre + i) [] ≡ get_or l i []
  get_or-append [] l i = let e : 0 + i ≡ i = omega arith in rw e
  get_or-append (x ∷ pre) l i =
      let e : suc (length pre) + i ≡ suc (length pre + i) = omega arith in
      rw e (get_or-append pre l i)

  get_or_pair :
      (pre : List Bytes) (x y : Bytes) (l : List Bytes)
      → (get_or (pre ++ (x ∷ y ∷ l)) (length pre) [] ≡ x)
        × (get_or (pre ++ (x ∷ y ∷ l)) (length pre + 1) [] ≡ y)
  get_or_pair pre x y l =
      let e : length pre ≡ length pre + 0 = omega arith in
      (
        subst (λ i. get_or (pre ++ (x ∷ y ∷ l)) i [] ≡ x) (sym e) (get_or-append pre (x ∷ y ∷ l) 0),
        get_or-append pre (x ∷ y ∷ l) 1,
      )

  -- The pairs that CalculateSteps hashes behind the first `length pre` entries.
  hash_pairs-parents :
      (l pre : List Bytes) (fuel stop : ℕ)
      → stop ≡ length pre + length l
      → length l ≤ fuel
      → hash_pairs hasher (pre ++ padded l) (range_steps (suc fuel) (length pre) stop 2) ≡ parents l
  unfolding hash_pairs parents padded
  hash_pairs-parents [] pre fuel stop e h = rw (range_done fuel (length pre) stop 2 (omega arith))
  hash_pairs-parents (x ∷ []) pre zero stop e h = absurd (omega arith)
  hash_pairs-parents (x ∷ []) pre (suc fuel) stop e h = rw (
    range_more (suc fuel) (length pre) stop 2 (omega arith),
    range_done fuel (length pre + 2) stop 2 (omega arith),
    (get_or_pair pre x x []).0,
    (get_or_pair pre x x []).1,
  )
  hash_pairs-parents (x ∷ y ∷ l) pre zero stop e h = absurd (omega arith)
  hash_pairs-parents (x ∷ y ∷ l) pre (suc fuel) stop e h =
      let two : length pre + 2 ≡ length (pre ++ (x ∷ y ∷ [])) =
        omega (arith, length-append pre (x ∷ y ∷ [])) in
      rw
        (
          range_more (suc fuel) (length pre) stop 2 (omega arith),
          (get_or_pair pre x y (padded l)).0,
          (get_or_pair pre x y (padded l)).1,
          two,
        )
        (ap (λ t. hasher (x ++ y) ∷ t)
          (ap
              (λ k.
                hash_pairs hasher k (range_steps (suc fuel) (length (pre ++ (x ∷ y ∷ []))) stop 2))
              (sym (append_assoc pre (x ∷ y ∷ []) (padded l)))
            ∙ hash_pairs-parents l (pre ++ (x ∷ y ∷ [])) fuel stop (omega arith) (omega arith)))

  steps_loop_step :
      (fuel : ℕ) (a y : Bytes) (t : List Bytes)
      → steps_loop hasher (suc fuel) (a ∷ y ∷ t) ≡ y ∷ steps_loop hasher fuel ([] ∷ parents t)
  unfolding steps_loop padded
  steps_loop_step fuel a y t =
      let ll = suc (suc (length t)) in
      let big : leb ll 1 ≡ false = ground arith in
      rw big (
        ap (λ k. y ∷ steps_loop hasher fuel ([] ∷ k))
          (ap (λ p. hash_pairs hasher p (range_steps ll 2 ll 2)) (padded_lem (a ∷ y ∷ t) [])
            ∙ hash_pairs-parents t (a ∷ y ∷ []) (suc (length t)) ll (omega arith) (omega arith)))

  with_first-steps_loop :
      (fuel : ℕ) (a : Bytes) (t : List Bytes) (f : Bytes)
      → length t < fuel
      → with_first hasher (steps_loop hasher fuel (a ∷ t)) f ≡ root fuel (f ∷ t)
  unfolding with_first root parents
  with_first-steps_loop zero a t f h = absurd (omega arith)
  with_first-steps_loop (suc fuel) a [] f h = unfold steps_loop in refl
  with_first-steps_loop (suc fuel) a (y ∷ t) f h = rw (steps_loop_step fuel a y t) (
      with_first-steps_loop fuel [] (parents t) (hasher (f ++ y))
        (omega (arith, length-parents_le t)))

  -- WithFirst on the steps of a list of transaction hashes, whose first place is nil, is the Merkle
  -- root of the list with the given hash in that place.
  pub with_first-calculate_steps :
      (txs : List Bytes) (coinbase : Bytes)
      → with_first hasher (calculate_steps hasher ([] ∷ txs)) coinbase
        ≡ merkle_root (coinbase ∷ txs)
  unfolding calculate_steps merkle_root
  with_first-calculate_steps txs coinbase =
      with_first-steps_loop (suc (length txs)) [] txs coinbase (omega arith)
