-- ===== src/Storage/Redis.antt =====
-- What storage/redis.go calls: redis, through github.com/go-redis/redis, and the texts of numbers that
-- it keeps there. Neither is part of the source: `Redis` is an interface, whose law states what the
-- documentation of each command promises for the values of the keys.
pub mod After
pub mod Hashes
use not_only_mining_pool.Common.{
  ℕ, zero, suc, ◌+◌, ◌-◌, ◌≡◌, ◌<◌, ◌^◌, Bool, true, false, ◌||◌, Option, none, some, List, [], ◌∷◌,
  Bytes, text_eq, if◌then◌else◌, ltb, leb, ◌==◌, length, drop, Signed, plus, minus,
}
use not_only_mining_pool.Common.Dict.{Dict, lookup}
use not_only_mining_pool.Common.Decimal.{format_int, parse_int}
use not_only_mining_pool.Common.Float.{Float64}
use mathlib.Core.Option
use not_only_mining_pool.Utils.Search.{contains}

-- strconv's FormatFloat(x, 'f', -1, 64), FormatFloat(x, 'f', 5, 64) and ParseFloat(s, 64)
pub record FloatText (fl : Float64) : Type 0 where
  pub format : fl.F → Bytes
  pub format_5 : fl.F → Bytes
  pub parse : Bytes → Option fl.F

-- A key's value: none, a string, a hash by its fields, a set by its members, or a sorted set, which is
-- a list with the lowest score first. The scores that the pool writes are whole numbers.
pub data Value : Type 0 where
  missing : Value
  string : Bytes → Value
  hash : (Bytes → Option Bytes) → Value
  members : (Bytes → Bool) → Value
  scored : List (Bytes × ℕ) → Value

-- The writes to one key, under redis' names.
pub data Write : Type 0 where
  sadd : Bytes → Write
  -- HSET of fields and their values
  hset : Dict Bytes → Write
  -- HINCRBY by one, and HINCRBYFLOAT
  hincrby : Bytes → Write
  hincrbyfloat : Bytes → Bytes → Write
  zadd : ℕ → Bytes → Write
  -- ZREMRANGEBYRANK from rank 0, and ZREMRANGEBYSCORE from score 0
  zremrangebyrank : Signed → Write
  zremrangebyscore : ℕ → Write
  set : Bytes → Write
  incr : Write
  del : Write

pub data Command : Type 0 where
  on : Bytes → Write → Command
  rename : Bytes → Bytes → Command
  smove : Bytes → Bytes → Bytes → Command

-- The fields of a hash and the members of a set: none of another value.
unfoldable pub field : Value → Bytes → Option Bytes
field missing f = none
field (string s) f = none
field (hash h) f = h f
field (members m) f = none
field (scored l) f = none

unfoldable pub is_member : Value → Bytes → Bool
is_member missing x = false
is_member (string s) x = false
is_member (hash h) x = false
is_member (members m) x = m x
is_member (scored l) x = false

unfoldable pub entries : Value → List (Bytes × ℕ)
entries missing = []
entries (string s) = []
entries (hash h) = []
entries (members m) = []
entries (scored l) = l

unfoldable pub text_of : Value → Option Bytes
text_of missing = none
text_of (string s) = some s
text_of (hash h) = none
text_of (members m) = none
text_of (scored l) = none

unfoldable pub updated : {A : Type 0} → Bytes → A → (Bytes → A) → Bytes → A
updated k a f j = if text_eq k j then a else f j

-- HSET takes the fields in their order.
unfoldable pub with_fields : Dict Bytes → (Bytes → Option Bytes) → Bytes → Option Bytes
with_fields [] h = h
with_fields ((f, v) ∷ fs) h = with_fields fs (updated f (some v) h)

-- An integer that is missing is zero; one more. Out of range is an error.
unfoldable pub next_int : Signed → Option Signed
next_int (plus n) = if ltb (n + 1) (2 ^ 63) then some (plus (n + 1)) else none
next_int (minus zero) = some (plus 0)
next_int (minus (suc n)) = some (minus n)

unfoldable pub one_more : Option Bytes → Option Bytes
one_more none = some (format_int (plus 1))
one_more (some t) = Option.map format_int (next_int (parse_int t))

-- A write of a field that fails leaves the hash.
unfoldable pub if_ok : Bytes → Option Bytes → (Bytes → Option Bytes) → Bytes → Option Bytes
if_ok f none h = h
if_ok f (some v) h = updated f (some v) h

-- Equal scores are ordered by their members.
unfoldable pub text_le : Bytes → Bytes → Bool
text_le [] t = true
text_le (x ∷ s) [] = false
text_le (x ∷ s) (y ∷ t) = let rest = text_le s t in ltb x y || (if x == y then rest else false)

unfoldable pub in_front : Bytes → ℕ → Bytes → ℕ → Bool
in_front x n y m = ltb n m || (if n == m then text_le x y else false)

unfoldable pub place : ℕ → Bytes → List (Bytes × ℕ) → List (Bytes × ℕ)
place n x [] = (x, n) ∷ []
place n x ((y, m) ∷ l) =
    let rest = place n x l in if in_front x n y m then (x, n) ∷ (y, m) ∷ l else (y, m) ∷ rest

unfoldable pub without : Bytes → List (Bytes × ℕ) → List (Bytes × ℕ)
without x [] = []
without x ((y, m) ∷ l) = let rest = without x l in if text_eq x y then rest else (y, m) ∷ rest

-- The entries with scores above a number, and how many entries stand up to a rank, which may be
-- counted from the end.
unfoldable pub above : ℕ → List (Bytes × ℕ) → List (Bytes × ℕ)
above n [] = []
above n ((y, m) ∷ l) = let rest = above n l in if leb m n then rest else (y, m) ∷ rest

unfoldable pub up_to_rank : Signed → ℕ → ℕ
up_to_rank (plus n) len = n + 1
up_to_rank (minus n) len = len - n

-- A write on a key: on a value of another type it is an error, which changes nothing.
module _ (add_float : Bytes → Bytes → Option Bytes) where
  unfoldable pub float_sum : Option Bytes → Bytes → Option Bytes
  float_sum none x = add_float (48 ∷ []) x
  float_sum (some t) x = add_float t x

  unfoldable pub hash_after : Write → (Bytes → Option Bytes) → Bytes → Option Bytes
  hash_after (hset fs) h = with_fields fs h
  hash_after (hincrby f) h = if_ok f (one_more (h f)) h
  hash_after (hincrbyfloat f x) h = if_ok f (float_sum (h f) x) h
  hash_after w h = h

  unfoldable pub set_after : Write → (Bytes → Bool) → Bytes → Bool
  set_after (sadd x) m = updated x true m
  set_after w m = m

  unfoldable pub scored_after : Write → List (Bytes × ℕ) → List (Bytes × ℕ)
  scored_after (zadd n x) l = place n x (without x l)
  scored_after (zremrangebyrank r) l = drop (up_to_rank r (length l)) l
  scored_after (zremrangebyscore n) l = above n l
  scored_after w l = l

  unfoldable pub string_of : Bytes → Option Bytes → Value
  string_of s none = string s
  string_of s (some t) = string t

  -- The first write to a key makes a value of its type.
  unfoldable pub first_after : Write → Value
  first_after (sadd x) = members (set_after (sadd x) λ _. false)
  first_after (hset fs) = hash (hash_after (hset fs) λ _. none)
  first_after (hincrby f) = hash (hash_after (hincrby f) λ _. none)
  first_after (hincrbyfloat f x) = hash (hash_after (hincrbyfloat f x) λ _. none)
  first_after (zadd n x) = scored (scored_after (zadd n x) [])
  first_after (zremrangebyrank r) = missing
  first_after (zremrangebyscore n) = missing
  first_after (set s) = string s
  first_after incr = string (format_int (plus 1))
  first_after del = missing

  unfoldable pub written : Write → Value → Value
  written del v = missing
  written (set s) v = string s
  written w missing = first_after w
  written incr (string s) = string_of s (one_more (some s))
  written w (string s) = string s
  written w (hash h) = hash (hash_after w h)
  written w (members m) = members (set_after w m)
  written w (scored l) = scored (scored_after w l)

  unfoldable pub renamed : Bytes → Bytes → Value → (Bytes → Value) → Bytes → Value
  renamed src dst missing m = m
  renamed src dst v m = updated dst v (updated src missing m)

  unfoldable pub moved : Bool → Bytes → Bytes → Bytes → (Bytes → Value) → Bytes → Value
  moved false src dst x m = m
  moved true src dst x m =
      let m' = updated src (members (updated x false (is_member (m src)))) m in
      updated dst (written (sadd x) (m' dst)) m'

  -- What a command promises of the values of all keys.
  unfoldable pub after : Command → (Bytes → Value) → Bytes → Value
  after (on k w) m = updated k (written w (m k)) m
  after (rename src dst) m = renamed src dst (m src) m
  after (smove src dst x) m = moved (is_member (m src) x) src dst x m

pub record Redis : Type 1 where
  pub Db : Type 0
  pub exec : Command → Db → Db
  -- the values of the keys
  pub value : Db → Bytes → Value
  -- the sum of two numbers as texts, unless one is none
  pub add_float : Bytes → Bytes → Option Bytes
  pub value-exec : (c : Command) (db : Db) → value (exec c db) ≡ after add_float c (value db)

-- The replies of HGETALL and SMEMBERS, in any order.
abbrev pub Fields : Dict Bytes → Value → Type 0
Fields d v = (f : Bytes) → lookup f d ≡ field v f

abbrev pub Members : List Bytes → Value → Type 0
Members l v = (x : Bytes) → contains x l ≡ is_member v x

-- A pipeline: its commands one after the other. An error of one does not stop the next.
module _ (redis : Redis) where
  unfoldable pub exec_all : List Command → redis.Db → redis.Db
  exec_all [] db = db
  exec_all (c ∷ cs) db = exec_all cs (redis.exec c db)
