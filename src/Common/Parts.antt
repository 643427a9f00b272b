-- ===== src/Common/Parts.antt =====
-- Go's strings: Join, Split and SplitN with a separator of one byte.
use Prim.Native.Nat.{ℕ, zero, suc}
use mathlib.Core.Path.{◌≡◌, refl}
use mathlib.Core.Bool.{false}
use mathlib.Core.List.{List, [], ◌∷◌, ◌++◌}
use native.Mathlib.Omega.{arith}
use not_only_mining_pool.Common.Tests.{◌==◌, if◌then◌else◌}
use not_only_mining_pool.Common.Lists.{All}
use not_only_mining_pool.Common.Texts.{Bytes}

-- strings.Join
unfoldable pub join_with : ℕ → List Bytes → Bytes
join_with c [] = []
join_with c (p ∷ []) = p
join_with c (p ∷ q ∷ ps) = p ++ (c ∷ join_with c (q ∷ ps))

abbrev pub onto_first : ℕ → List Bytes → List Bytes
onto_first x [] = (x ∷ []) ∷ []
onto_first x (p ∷ ps) = (x ∷ p) ∷ ps

-- strings.Split
unfoldable pub split_on : ℕ → Bytes → List Bytes
split_on c [] = [] ∷ []
split_on c (x ∷ s) = let rest = split_on c s in if x == c then [] ∷ rest else onto_first x rest

-- strings.SplitN into `n + 1` parts
unfoldable pub split_n : ℕ → ℕ → Bytes → List Bytes
split_n zero c s = s ∷ []
split_n (suc n) c [] = [] ∷ []
split_n (suc n) c (x ∷ s) =
    let behind = split_n n c s in
    let rest = split_n (suc n) c s in if x == c then [] ∷ behind else onto_first x rest

-- The text has no such byte.
abbrev pub Without : ℕ → Bytes → Type 0
Without c = All (λ x. (x == c) ≡ false)

pub split_on-first :
    (c : ℕ) (p s : Bytes) → Without c p → split_on c (p ++ (c ∷ s)) ≡ p ∷ split_on c s
unfolding split_on
split_on-first c [] s w = ground arith
split_on-first c (x ∷ p) s w = rw (w.0, split_on-first c p s w.1) refl

pub split_on-last : (c : ℕ) (p : Bytes) → Without c p → split_on c p ≡ p ∷ []
unfolding split_on
split_on-last c [] w = refl
split_on-last c (x ∷ p) w = rw (w.0, split_on-last c p w.1) refl

pub split_n-first :
    (n c : ℕ) (p s : Bytes) → Without c p → split_n (suc n) c (p ++ (c ∷ s)) ≡ p ∷ split_n n c s
unfolding split_n
split_n-first n c [] s w = ground arith
split_n-first n c (x ∷ p) s w = rw (w.0, split_n-first n c p s w.1) refl

-- Parts without the separator are split again.
pub split_on-join_with :
    (c : ℕ) (p : Bytes) (ps : List Bytes)
    → All (Without c) (p ∷ ps)
    → split_on c (join_with c (p ∷ ps)) ≡ p ∷ ps
unfolding join_with
split_on-join_with c p [] w = split_on-last c p w.0
split_on-join_with c p (q ∷ ps) w =
    rw (split_on-first c p (join_with c (q ∷ ps)) w.0, split_on-join_with c q ps w.1) refl
