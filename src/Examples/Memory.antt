-- ===== src/Examples/Memory.antt =====
-- A redis in memory, texts of whole numbers, and a JSON that knows two updates.
use not_only_mining_pool.Common.{
  ℕ, ◌+◌, ◌≡◌, refl, Bool, true, false, ◌&&◌, ◌==◌, Option, none, some, List, [], ◌∷◌, Bytes,
  if◌then◌else◌, arith, text_eq_iff,
}
use not_only_mining_pool.Common.Texts.{text_eq}
use not_only_mining_pool.Common.Dict.{Dict}
use not_only_mining_pool.Common.Decimal.{
  Parsed, syntax_error, range_error, parsed, format_uint, parse_uint,
}
use not_only_mining_pool.Storage.Types.{PaymentUpdate}
use not_only_mining_pool.Storage.Redis.{FloatText, Value, Redis, after}
use not_only_mining_pool.Storage.Payouts.{Json}
use not_only_mining_pool.Examples.Numbers.{cents}
use not_only_mining_pool.Examples.Payouts.{whole, reduced}

-- Whole numbers as texts.
abbrev pub number : Parsed → Option ℕ
number syntax_error = none
number range_error = none
number (parsed n) = some n

abbrev pub cent_texts : FloatText cents
cent_texts = record {
  format = format_uint;
  format_5 = format_uint;
  parse = λ t. number (parse_uint t);
}

abbrev pub sum_text : Option ℕ → Option ℕ → Option Bytes
sum_text none b = none
sum_text (some a) none = none
sum_text (some a) (some b) = some (format_uint (a + b))

abbrev pub memory : Redis
memory = record {
  Db = Bytes → Value;
  exec = after λ s t. sum_text (number (parse_uint s)) (number (parse_uint t));
  value = λ db. db;
  add_float = λ s t. sum_text (number (parse_uint s)) (number (parse_uint t));
  value-exec = λ c db. refl;
}

unfoldable pub same_amounts : Dict ℕ → Dict ℕ → Bool
same_amounts [] [] = true
same_amounts [] (e ∷ m) = false
same_amounts (e ∷ m) [] = false
same_amounts ((k, v) ∷ m) ((j, w) ∷ n) = text_eq k j && (v == w) && same_amounts m n

same_amounts-eq : (m n : Dict ℕ) → same_amounts m n ≡ true → m ≡ n
unfolding same_amounts
same_amounts-eq [] [] h = refl
same_amounts-eq [] (e ∷ n) h = cc
same_amounts-eq (e ∷ m) [] h = cc
same_amounts-eq ((k, v) ∷ m) ((j, w) ∷ n) h = ground (arith, text_eq_iff k j, same_amounts-eq m n)

unfoldable pub same_texts : List Bytes → List Bytes → Bool
same_texts [] [] = true
same_texts [] (x ∷ l) = false
same_texts (x ∷ l) [] = false
same_texts (x ∷ l) (y ∷ k) = text_eq x y && same_texts l k

same_texts-eq : (l k : List Bytes) → same_texts l k ≡ true → l ≡ k
unfolding same_texts
same_texts-eq [] [] h = refl
same_texts-eq [] (x ∷ l) h = cc
same_texts-eq (x ∷ l) [] h = cc
same_texts-eq (x ∷ l) (y ∷ k) h = ground (arith, text_eq_iff x y, same_texts-eq l k)

unfoldable pub same_update : PaymentUpdate cents → PaymentUpdate cents → Bool
same_update u v =
    same_amounts u.balances v.balances
    && (same_amounts u.paid v.paid
        && (same_texts u.confirmed v.confirmed
            && (same_texts u.orphaned v.orphaned
                && (text_eq u.delete_rounds v.delete_rounds && (u.pps_cursor == v.pps_cursor)))))

same_update-eq : (u v : PaymentUpdate cents) → same_update u v ≡ true → u ≡ v
unfolding same_update
same_update-eq u v h =
    let balances : u.balances ≡ v.balances = same_amounts-eq u.balances v.balances (ground arith) in
    let paid : u.paid ≡ v.paid = same_amounts-eq u.paid v.paid (ground arith) in
    let confirmed : u.confirmed ≡ v.confirmed =
      same_texts-eq u.confirmed v.confirmed (ground arith) in
    let orphaned : u.orphaned ≡ v.orphaned = same_texts-eq u.orphaned v.orphaned (ground arith) in
    let rounds : u.delete_rounds ≡ v.delete_rounds =
      (text_eq_iff u.delete_rounds v.delete_rounds).0 (ground arith) in
    let cursor : u.pps_cursor ≡ v.pps_cursor = ground arith in
    λ i. record {
      balances = balances i;
      paid = paid i;
      confirmed = confirmed i;
      orphaned = orphaned i;
      delete_rounds = rounds i;
      pps_cursor = cursor i;
    }

-- A Marshal that knows two updates.
unfoldable pub text_if : Bool → Bool → Option Bytes
text_if true b = some (1 ∷ [])
text_if false true = some (2 ∷ [])
text_if false false = none

unfoldable pub marshal_known : PaymentUpdate cents → Option Bytes
marshal_known u = text_if (same_update u whole) (same_update u reduced)

unfoldable pub unmarshal_known : Bytes → Option (PaymentUpdate cents)
unmarshal_known [] = none
unmarshal_known (c ∷ s) = if c == 1 then some whole else some reduced

abbrev pub known : Json cents
known = record { marshal = marshal_known; unmarshal = unmarshal_known }

text_if-law :
    (u : PaymentUpdate cents) (p q : Bool) (b : Bytes)
    → same_update u whole ≡ p
    → same_update u reduced ≡ q
    → text_if p q ≡ some b
    → unmarshal_known b ≡ some u
unfolding text_if unmarshal_known
text_if-law u true q b is_whole k h =
    let e : b ≡ 1 ∷ [] = cc in rw (e, same_update-eq u whole is_whole) refl
text_if-law u false true b k is_reduced h =
    let e : b ≡ 2 ∷ [] = cc in rw (e, same_update-eq u reduced is_reduced) refl
text_if-law u false false b k l h = cc

pub known_law :
    (u : PaymentUpdate cents) (b : Bytes) → marshal_known u ≡ some b → unmarshal_known b ≡ some u
unfolding marshal_known
known_law u b h = text_if-law u _ _ b refl refl h

pub known_none : unmarshal_known [] ≡ none
unfolding unmarshal_known
known_none = refl
