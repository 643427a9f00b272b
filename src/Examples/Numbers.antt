-- ===== src/Examples/Numbers.antt =====
-- Fixed-point numbers with two decimals, in the place of Go's float64 and of math/big's Float.
use not_only_mining_pool.Common.{ℕ, ◌+◌, ◌-◌, ◌*◌, ◌/◌, ltb, leb}
use not_only_mining_pool.Common.Float.{Float64}
use not_only_mining_pool.Jobs.Share.{BigFloat}

abbrev pub cents : Float64
cents = record {
  F = ℕ;
  of_nat = λ n. n * 100;
  add = λ a b. a + b;
  sub = λ a b. a - b;
  mul = λ a b. a * b / 100;
  div = λ a b. a * 100 / b;
  lt = ltb;
  le = leb;
  floor = λ a. a / 100;
  ceil = λ a. (a + 99) / 100;
}

abbrev pub big_cents : BigFloat cents
big_cents = record {
  B = ℕ;
  of_nat = λ n. n * 100;
  of_float = λ a. a;
  quo = λ a b. a * 100 / b;
  less = ltb;
  to_float = λ a. a;
}
