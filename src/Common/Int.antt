-- ===== src/Common/Int.antt =====
-- Go's signed numbers, where the pool reads one from outside: a sign and a size.
use Prim.Native.Nat.{ℕ}

pub data Signed : Type 0 where
  plus : ℕ → Signed
  -- `minus n` is -(n + 1)
  minus : ℕ → Signed
