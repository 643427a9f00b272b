-- ===== src/Vardiff/RingBuffer.antt =====
-- vardiff/ringbuffer.go. The buffer's entries are int64 there; nothing here but the average looks at
-- them, so they may be of any type. Cursor and sizes are numbers that stay far below 2^63.
pub mod Window
use not_only_mining_pool.Common.Float.{Float64}
use not_only_mining_pool.Common.{
  ℕ, ◌+◌, ◌%◌, Bool, true, false, List, [], ◌∷◌, ◌++◌, length, set, ◌==◌, if◌then◌else◌,
}

-- The field Data is `values` here.
pub record RingBuffer {ℓ} (A : Type ℓ) : Type ℓ where
  pub is_full : Bool
  pub max_size : ℕ
  pub cursor : ℕ
  pub values : List A

module _ {ℓ} {A : Type ℓ} where
  -- NewRingBuffer
  unfoldable pub new_ring_buffer : ℕ → RingBuffer A
  new_ring_buffer max_size = record {
    is_full = false;
    max_size = max_size;
    cursor = 0;
    values = [];
  }

  -- Append. Go panics on a write out of bounds; a valid buffer never makes one.
  unfoldable pub append : RingBuffer A → A → RingBuffer A
  append rb x =
      if rb.is_full
      then record rb { values = set rb.values rb.cursor x; cursor = (rb.cursor + 1) % rb.max_size }
      else let grown = rb.values ++ (x ∷ []) in
        if length grown == rb.max_size
        then record rb { values = grown; cursor = 0; is_full = true }
        else record rb { values = grown; cursor = rb.cursor + 1 }

  -- Size
  unfoldable pub size : RingBuffer A → ℕ
  size rb = if rb.is_full then rb.max_size else rb.cursor

  -- Clear
  unfoldable pub clear : RingBuffer A → RingBuffer A
  clear rb = record rb { values = []; cursor = 0; is_full = false }

-- Avg, of intervals that are not negative.
module _ (fl : Float64) where
  unfoldable pub sum_of : List ℕ → ℕ
  sum_of [] = 0
  sum_of (x ∷ xs) = x + sum_of xs

  unfoldable pub avg : RingBuffer ℕ → fl.F
  unfolding sum_of
  avg rb = fl.div (fl.of_nat (sum_of rb.values)) (fl.of_nat (size rb))
