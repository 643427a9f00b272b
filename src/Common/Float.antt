-- ===== src/Common/Float.antt =====
-- Go's float64, which the kernel has no numbers for: a type with the operations that the pool uses.
-- What a theorem needs to know of them is among its hypotheses.
use Prim.Native.Nat.{ℕ}
use mathlib.Core.Bool.{Bool}

pub record Float64 : Type 1 where
  pub F : Type 0
  -- `float64(n)` of a uint64
  pub of_nat : ℕ → F
  pub add : F → F → F
  pub sub : F → F → F
  pub mul : F → F → F
  pub div : F → F → F
  -- `<` and `<=`
  pub lt : F → F → Bool
  pub le : F → F → Bool
  -- `uint64(math.Floor(x))`, and the truncation `uint64(x)`, of an `x` that is not negative
  pub floor : F → ℕ
  -- `math.Ceil`
  pub ceil : F → ℕ
