-- ===== src/Storage/Block/RoundTrip.antt =====
-- storage/block.go: pending blocks are read back from their texts.
use not_only_mining_pool.Common.{
  ℕ, ◌≡◌, refl, ◌<◌, ◌^◌, ◌==◌, false, true, [], ◌∷◌, some, Bytes, Signed, plus, minus, All, arith,
}
use not_only_mining_pool.Common.Decimal.{format_uint, format_int, digits, is_digit}
use not_only_mining_pool.Common.Decimal.RoundTrip.{
  parse_uint-format_uint, parse_int-format_int, IsInt64, digits-All,
}
use not_only_mining_pool.Common.Parts.{join_with, Without, split_on-join_with}
use not_only_mining_pool.Storage.Types.{PendingBlock}
use not_only_mining_pool.Storage.Block.{
  colon, block_text, with_finder, with_height, block_of_parts, new_pending_block_from_string,
}

is_digit-≢-colon : (c : ℕ) → is_digit c ≡ true → (c == colon) ≡ false
unfolding is_digit
is_digit-≢-colon c h = ground arith

digits-Without : (s : Bytes) → All (λ c. is_digit c ≡ true) s → Without colon s
digits-Without [] a = tt
digits-Without (c ∷ s) a = (is_digit-≢-colon c a.0, digits-Without s a.1)

pub format_uint-Without : (n : ℕ) → Without colon (format_uint n)
unfolding format_uint
format_uint-Without n = digits-Without (digits 20 n) (digits-All 20 n)

pub format_int-Without : (i : Signed) → Without colon (format_int i)
unfolding format_int
format_int-Without (plus n) = format_uint-Without n
format_int-Without (minus n) = (refl, format_uint-Without _)

-- A block whose texts have no colon, and whose numbers have their widths, is read back from its text.
pub new_pending_block_from_string-block_text :
    (pb : PendingBlock)
    → Without colon pb.hash
    → Without colon pb.tx_hash
    → Without colon pb.finder
    → pb.height < 2 ^ 64
    → IsInt64 pb.mark
    → new_pending_block_from_string (block_text pb) ≡ some pb
unfolding block_text new_pending_block_from_string block_of_parts with_height with_finder
new_pending_block_from_string-block_text pb h t f height mark =
    rw
      (
        split_on-join_with colon pb.hash
            (pb.tx_hash ∷ format_uint pb.height ∷ pb.finder ∷ format_int pb.mark ∷ [])
            (h, (t, (format_uint-Without pb.height, (f, (format_int-Without pb.mark, tt))))),
        parse_uint-format_uint pb.height height,
        parse_int-format_int pb.mark mark,
      )
      refl

-- The older texts of three parts are read too, without a finder and with the mark zero.
pub old_block_text :
    (hash tx_hash : Bytes) (height : ℕ)
    → Without colon hash
    → Without colon tx_hash
    → height < 2 ^ 64
    → new_pending_block_from_string (join_with colon (hash ∷ tx_hash ∷ format_uint height ∷ []))
      ≡ some
          (record { hash = hash; tx_hash = tx_hash; height = height; finder = []; mark = plus 0 })
unfolding new_pending_block_from_string block_of_parts with_height with_finder
old_block_text hash tx_hash height h t b =
    rw
      (
        split_on-join_with colon hash (tx_hash ∷ format_uint height ∷ [])
            (h, (t, (format_uint-Without height, tt))),
        parse_uint-format_uint height b,
      )
      refl
