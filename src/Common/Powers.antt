-- ===== src/Common/Powers.antt =====
-- Powers of native numbers.
use native.Mathlib.Nat.{pow-suc, pow-zero}
use Prim.Native.Nat.{ℕ, zero, suc, ◌+◌, ◌*◌, ◌^◌}
use mathlib.Core.Path.{◌≡◌, refl}
use native.Mathlib.Omega.{arith}

pub pow_add : (m a b : ℕ) → m ^ (a + b) ≡ m ^ a * m ^ b
pow_add m zero b = let e : zero + b ≡ b = omega arith in rw (e, pow-zero m) (omega arith)
pow_add m (suc a) b =
    let e : suc a + b ≡ suc (a + b) = omega arith in
    rw (e, pow-suc m (a + b), pow_add m a b, pow-suc m a) (omega arith)

-- A byte of shift is a factor of 256.
pub pow_byte : (k : ℕ) → 2 ^ (8 * k) ≡ 256 ^ k
pow_byte zero = refl
pow_byte (suc k) =
    let e : 8 * suc k ≡ 8 + 8 * k = omega arith in
    rw (e, pow_add 2 8 (8 * k), pow_byte k, pow-suc 256 k) (omega arith)
