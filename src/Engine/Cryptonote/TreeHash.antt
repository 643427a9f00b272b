-- ===== src/Engine/Cryptonote/TreeHash.antt =====
-- engine/cryptonote/blob.go: treeHash, for any hash function in the place of keccak.
use not_only_mining_pool.Common.{
  ℕ, zero, suc, ◌-◌, ◌*◌, ◌/◌, List, [], ◌∷◌, ◌++◌, Bytes, length, take, drop, replicate, get_or,
  ltb, if◌then◌else◌,
}

module _ (keccak : Bytes → Bytes) where
  -- `for pow < count { pow <<= 1 }`: `count` rounds are enough.
  unfoldable pub power_loop : ℕ → ℕ → ℕ → ℕ
  power_loop zero pow count = pow
  power_loop (suc fuel) pow count =
      let rest = power_loop fuel (pow * 2) count in if ltb pow count then rest else pow

  -- The hashes of a level, two by two.
  unfoldable pub hash_level : List Bytes → List Bytes
  hash_level [] = []
  hash_level (a ∷ []) = []
  hash_level (a ∷ b ∷ l) = keccak (a ++ b) ∷ hash_level l

  -- The reduction down to two: `ints[j] = keccak256(ints[2j], ints[2j+1])`. The level is halved in each round.
  unfoldable pub reduce_loop : ℕ → List Bytes → List Bytes
  reduce_loop zero ints = ints
  reduce_loop (suc fuel) ints =
      let rest = reduce_loop fuel (hash_level ints) in if ltb 2 (length ints) then rest else ints

  unfoldable pub first_two : List Bytes → Bytes
  first_two ints = keccak (get_or ints 0 [] ++ get_or ints 1 [])

  -- Three hashes or more, with the half of the power of two that is not below their number.
  unfoldable pub tree_of : ℕ → List Bytes → Bytes
  tree_of cnt hashes =
      let kept = 2 * cnt - length hashes in
      first_two (reduce_loop cnt (take kept hashes ++ hash_level (drop kept hashes)))

  -- treeHash
  unfoldable pub tree_hash : List Bytes → Bytes
  tree_hash [] = []
  tree_hash (h ∷ []) = take 32 (h ++ replicate 32 0)
  tree_hash (g ∷ h ∷ []) = keccak (g ++ h)
  tree_hash (f ∷ g ∷ h ∷ hs) =
      tree_of (power_loop (length (f ∷ g ∷ h ∷ hs)) 2 (length (f ∷ g ∷ h ∷ hs)) / 2)
        (f ∷ g ∷ h ∷ hs)
