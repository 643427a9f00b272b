-- ===== src/Utils/Hex.antt =====
-- Go's encoding/hex and the base-16 readers of strconv and math/big, as the pool uses them.
use mathlib.Core.Option
use not_only_mining_pool.Common.{
  ℕ, ◌+◌, ◌-◌, ◌*◌, ◌/◌, ◌%◌, Bool, true, false, ◌&&◌, Option, none, some, [], ◌∷◌, Bytes, leb, ltb,
  ◌==◌, if◌then◌else◌, Signed, plus, minus,
}

-- hex.EncodeToString's table "0123456789abcdef"
unfoldable pub hex_digit : ℕ → ℕ
hex_digit n = if ltb n 10 then 48 + n else 87 + n

-- hex.EncodeToString
unfoldable pub hex_encode : Bytes → Bytes
unfolding hex_digit
hex_encode [] = []
hex_encode (b ∷ bs) = hex_digit (b / 16) ∷ hex_digit (b % 16) ∷ hex_encode bs

-- The value of a digit of either case.
unfoldable pub hex_value : ℕ → Option ℕ
hex_value c =
    if leb 48 c && leb c 57
    then some (c - 48)
    else if leb 97 c && leb c 102
    then some (c - 87)
    else if leb 65 c && leb c 70
    then some (c - 55)
    else none

-- Two digits in front of what the later ones give.
unfoldable pub hex_pair : Option ℕ → Option ℕ → Bytes → Bytes
hex_pair (some h) (some l) rest = (h * 16 + l) ∷ rest
hex_pair (some h) none rest = []
hex_pair none l rest = []

-- The bytes that hex.DecodeString returns, those of the pairs of digits in front of its first error.
-- The pool logs that error and goes on with them.
unfoldable pub hex_decode : Bytes → Bytes
unfolding hex_value hex_pair
hex_decode [] = []
hex_decode (c ∷ []) = []
hex_decode (c ∷ d ∷ cs) = hex_pair (hex_value c) (hex_value d) (hex_decode cs)

-- Whether hex.DecodeString returns no error.
unfoldable pub is_hex : Bytes → Bool
unfolding hex_value
is_hex [] = true
is_hex (c ∷ []) = false
is_hex (c ∷ d ∷ cs) = elim (hex_value c) [
  | none ↦ false
  | some h ↦ elim (hex_value d) [ none ↦ false | some l ↦ is_hex cs ]
]

-- The number that a text of digits spells, highest first, behind `acc`.
unfoldable pub digits_value : ℕ → Bytes → Option ℕ
unfolding hex_value
digits_value acc [] = some acc
digits_value acc (c ∷ cs) = elim (hex_value c) [
  | none ↦ none
  | some v ↦ digits_value (acc * 16 + v) cs
]

-- At least one digit.
unfoldable pub unsigned_value : Bytes → Option ℕ
unfolding digits_value
unsigned_value [] = none
unsigned_value (c ∷ cs) = digits_value 0 (c ∷ cs)

abbrev pub negate : ℕ → Signed
negate n = if n == 0 then plus 0 else minus (n - 1)

-- strconv.ParseInt(s, 16, 64) of a text short enough not to overflow, and big.Int's SetString(s, 16): an
-- optional sign and digits of either case. `none` is the error.
unfoldable pub parse_hex : Bytes → Option Signed
unfolding unsigned_value
parse_hex [] = none
parse_hex (c ∷ cs) =
    if c == 43
    then Option.map plus (unsigned_value cs)
    else if c == 45
    then Option.map negate (unsigned_value cs)
    else Option.map plus (unsigned_value (c ∷ cs))
