-- ===== src/Storage/Block.antt =====
-- storage/block.go: the text in which redis keeps a block that is not settled.
pub mod RoundTrip
use not_only_mining_pool.Common.{ℕ, List, [], ◌∷◌, Option, none, some, Bytes, Signed, plus}
use not_only_mining_pool.Common.Decimal.{
  format_uint, format_int, Parsed, syntax_error, range_error, parsed, parse_uint, parse_int,
}
use not_only_mining_pool.Common.Parts.{join_with, split_on}
use not_only_mining_pool.Storage.Types.{PendingBlock}

-- `:`
abbrev pub colon : ℕ
colon = 58

-- PendingBlock.String
unfoldable pub block_text : PendingBlock → Bytes
block_text pb =
    join_with colon
      (pb.hash ∷ pb.tx_hash ∷ format_uint pb.height ∷ pb.finder ∷ format_int pb.mark ∷ [])

-- The optional last two parts, on a text that has the first three.
unfoldable pub with_finder : PendingBlock → List Bytes → PendingBlock
with_finder pb [] = pb
with_finder pb (finder ∷ []) = record pb { finder = finder }
with_finder pb (finder ∷ mark ∷ rest) = record pb { finder = finder; mark = parse_int mark }

unfoldable pub with_height : Bytes → Bytes → List Bytes → Parsed → Option PendingBlock
with_height hash tx_hash rest syntax_error = none
with_height hash tx_hash rest range_error = none
with_height hash tx_hash rest (parsed height) = some (
    with_finder
      (record { hash = hash; tx_hash = tx_hash; height = height; finder = []; mark = plus 0 }) rest)

unfoldable pub block_of_parts : List Bytes → Option PendingBlock
block_of_parts [] = none
block_of_parts (a ∷ []) = none
block_of_parts (a ∷ b ∷ []) = none
block_of_parts (hash ∷ tx_hash ∷ height ∷ rest) = with_height hash tx_hash rest (parse_uint height)

-- NewPendingBlockFromString: `none` is its error.
unfoldable pub new_pending_block_from_string : Bytes → Option PendingBlock
new_pending_block_from_string str = block_of_parts (split_on colon str)
