-- ===== src/Merkle.antt =====
-- merkletree/mtree.go: the Merkle steps of a block's transactions, which fold a coinbase hash that
-- is not known yet into the Merkle root.
pub mod Root
use not_only_mining_pool.Common.{
  ℕ, zero, suc, ◌%◌, ◌+◌, List, [], ◌∷◌, ◌++◌, Bytes, length, get_or, last_or, leb, ◌==◌,
  if◌then◌else◌,
}

-- Hasher
abbrev pub Hasher : Type 0
Hasher = Bytes → Bytes

-- utils.Range on the arguments that CalculateSteps gives it (a positive step): the numbers from
-- `start` on, below `stop`. The fuel is an upper bound of their number.
unfoldable pub range_steps : ℕ → ℕ → ℕ → ℕ → List ℕ
range_steps zero i stop step = []
range_steps (suc fuel) i stop step =
    let rest = range_steps fuel (i + step) stop step in if leb stop i then [] else i ∷ rest

module _ (hasher : Hasher) where
  -- `Ld`: the hashes of the pairs that begin at the given indices.
  unfoldable pub hash_pairs : List Bytes → List ℕ → List Bytes
  hash_pairs l [] = []
  hash_pairs l (i ∷ r) = hasher (get_or l i [] ++ get_or l (i + 1) []) ∷ hash_pairs l r

  -- The loop of CalculateSteps on the level `l`. Its length falls from round to round, and is
  -- enough fuel.
  unfoldable pub steps_loop : ℕ → List Bytes → List Bytes
  unfolding range_steps hash_pairs
  steps_loop zero l = []
  steps_loop (suc fuel) l =
      let ll = length l in
      let padded = if ll % 2 == 0 then l else l ++ (last_or l [] ∷ []) in
      let next = [] ∷ hash_pairs padded (range_steps ll 2 ll 2) in
      let rest = steps_loop fuel next in if leb ll 1 then [] else get_or l 1 [] ∷ rest

  -- CalculateSteps. A nil byte slice is the empty list.
  unfoldable pub calculate_steps : List Bytes → List Bytes
  unfolding steps_loop
  calculate_steps l = steps_loop (length l) l

  -- WithFirst
  unfoldable pub with_first : List Bytes → Bytes → Bytes
  with_first [] f = f
  with_first (s ∷ steps) f = with_first steps (hasher (f ++ s))
