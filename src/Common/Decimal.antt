-- ===== src/Common/Decimal.antt =====
-- Go's strconv in base ten: FormatUint, FormatInt, ParseUint and ParseInt of 64 bits.
pub mod RoundTrip
use Prim.Native.Nat.{ℕ, zero, suc, ◌+◌, ◌-◌, ◌*◌, ◌/◌, ◌%◌, ◌^◌, ◌<◌}
use mathlib.Core.Bool.{Bool, ◌&&◌}
use mathlib.Core.List.{List, [], ◌∷◌, ◌++◌}
use mathlib.Core.Option.{Option, none, some}
use not_only_mining_pool.Common.Tests.{ltb, leb, ◌==◌, if◌then◌else◌}
use not_only_mining_pool.Common.Texts.{Bytes}
use not_only_mining_pool.Common.Int.{Signed, plus, minus}

-- The last `k` digits at most, without leading zeros.
unfoldable pub digits : ℕ → ℕ → Bytes
digits zero n = []
digits (suc k) n =
    let front = digits k (n / 10) in
    if ltb n 10 then (48 + n) ∷ [] else front ++ ((48 + n % 10) ∷ [])

-- FormatUint: the largest uint64 has twenty digits.
unfoldable pub format_uint : ℕ → Bytes
format_uint n = digits 20 n

-- FormatInt
unfoldable pub format_int : Signed → Bytes
format_int (plus n) = format_uint n
format_int (minus n) = 45 ∷ format_uint (n + 1)

-- What strconv reads: a number, or one of its two errors.
pub data Parsed : Type 0 where
  syntax_error range_error : Parsed
  parsed : ℕ → Parsed

unfoldable pub is_digit : ℕ → Bool
is_digit c = leb 48 c && leb c 57

-- The loop of ParseUint behind the digits of `acc`.
unfoldable pub parse_digits : ℕ → Bytes → Parsed
parse_digits acc [] = parsed acc
parse_digits acc (c ∷ cs) =
    let acc' = acc * 10 + (c - 48) in
    let rest = parse_digits acc' cs in
    if is_digit c then (if ltb acc' (2 ^ 64) then rest else range_error) else syntax_error

-- ParseUint
unfoldable pub parse_uint : Bytes → Parsed
parse_uint [] = syntax_error
parse_uint (c ∷ cs) = parse_digits 0 (c ∷ cs)

-- ParseInt's value of a text without its sign. An error that is ignored leaves zero or the bound.
unfoldable pub positive_of : Parsed → Signed
positive_of syntax_error = plus 0
positive_of range_error = plus (2 ^ 63 - 1)
positive_of (parsed n) = if ltb n (2 ^ 63) then plus n else plus (2 ^ 63 - 1)

unfoldable pub negative_of : Parsed → Signed
negative_of syntax_error = plus 0
negative_of range_error = minus (2 ^ 63 - 1)
negative_of (parsed zero) = plus 0
negative_of (parsed (suc n)) = if ltb n (2 ^ 63) then minus n else minus (2 ^ 63 - 1)

-- ParseInt, its error ignored.
unfoldable pub parse_int : Bytes → Signed
parse_int [] = plus 0
parse_int (c ∷ cs) =
    if c == 45
    then negative_of (parse_uint cs)
    else if c == 43
    then positive_of (parse_uint cs)
    else positive_of (parse_uint (c ∷ cs))

-- ParseInt: `none` is either error.
unfoldable pub checked_plus : Parsed → Option Signed
checked_plus syntax_error = none
checked_plus range_error = none
checked_plus (parsed n) = if ltb n (2 ^ 63) then some (plus n) else none

unfoldable pub checked_minus : Parsed → Option Signed
checked_minus syntax_error = none
checked_minus range_error = none
checked_minus (parsed zero) = some (plus 0)
checked_minus (parsed (suc n)) = if ltb n (2 ^ 63) then some (minus n) else none

unfoldable pub parse_int64 : Bytes → Option Signed
parse_int64 [] = none
parse_int64 (c ∷ cs) =
    if c == 45
    then checked_minus (parse_uint cs)
    else if c == 43
    then checked_plus (parse_uint cs)
    else checked_plus (parse_uint (c ∷ cs))
