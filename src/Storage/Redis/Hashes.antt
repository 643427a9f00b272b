-- ===== src/Storage/Redis/Hashes.antt =====
-- What the writes do to the fields of a hash.
use not_only_mining_pool.Common.{
  ◌≡◌, refl, sym, Bytes, Option, none, some, if◌then◌else◌, inl, inr, Option-cases, Bool-cases, ap,
  text_eq_iff,
}
use not_only_mining_pool.Common.Texts.{text_eq}
use not_only_mining_pool.Common.Dict.{Dict}
use not_only_mining_pool.Storage.Redis.{
  Value, missing, string, hash, members, scored, field, hset, hincrbyfloat, updated, written,
  with_fields, if_ok, float_sum, hash_after, first_after,
}

-- Not a value of another type, on which the writes of a hash are errors.
abbrev pub IsHash : Value → Type 0
IsHash missing = Unit
IsHash (string s) = ⊥
IsHash (hash h) = Unit
IsHash (members m) = ⊥
IsHash (scored l) = ⊥

module _ (add_float : Bytes → Bytes → Option Bytes) where
  pub hset-IsHash :
      (fs : Dict Bytes) (v : Value) → IsHash v → IsHash (written add_float (hset fs) v)
  unfolding written first_after
  hset-IsHash fs missing h = tt
  hset-IsHash fs (hash m) h = tt
  hset-IsHash fs (string s) h = elim h [ ]
  hset-IsHash fs (members m) h = elim h [ ]
  hset-IsHash fs (scored l) h = elim h [ ]

  pub field-hset :
      (fs : Dict Bytes) (v : Value) (f : Bytes)
      → IsHash v
      → field (written add_float (hset fs) v) f ≡ with_fields fs (field v) f
  unfolding written first_after hash_after field
  field-hset fs missing f h = refl
  field-hset fs (hash m) f h = refl
  field-hset fs (string s) f h = elim h [ ]
  field-hset fs (members m) f h = elim h [ ]
  field-hset fs (scored l) f h = elim h [ ]

  pub hincrbyfloat-IsHash :
      (f x : Bytes) (v : Value) → IsHash v → IsHash (written add_float (hincrbyfloat f x) v)
  unfolding written first_after
  hincrbyfloat-IsHash f x missing h = tt
  hincrbyfloat-IsHash f x (hash m) h = tt
  hincrbyfloat-IsHash f x (string s) h = elim h [ ]
  hincrbyfloat-IsHash f x (members m) h = elim h [ ]
  hincrbyfloat-IsHash f x (scored l) h = elim h [ ]

  pub field-hincrbyfloat :
      (f x : Bytes) (v : Value) (g : Bytes)
      → IsHash v
      → field (written add_float (hincrbyfloat f x) v) g
        ≡ if_ok f (float_sum add_float (field v f) x) (field v) g
  unfolding written first_after hash_after field
  field-hincrbyfloat f x missing g h = refl
  field-hincrbyfloat f x (hash m) g h = refl
  field-hincrbyfloat f x (string s) g h = elim h [ ]
  field-hincrbyfloat f x (members m) g h = elim h [ ]
  field-hincrbyfloat f x (scored l) g h = elim h [ ]

  -- HINCRBYFLOAT of a field: the sum, or what was there if there is none.
  unfoldable pub more : Option Bytes → Bytes → Option Bytes
  more old x = elim (float_sum add_float old x) [ none ↦ old | some v ↦ some v ]

  pub if_ok-more :
      (f x g : Bytes) (h : Bytes → Option Bytes)
      → if_ok f (float_sum add_float (h f) x) h g ≡ (if text_eq f g then more (h f) x else h g)
  unfolding more if_ok updated
  if_ok-more f x g h = elim (Option-cases (float_sum add_float (h f) x)) [
    | inl e ↦ elim (Bool-cases (text_eq f g)) [
      | inl same ↦ rw (more, e, same) (ap h (sym ((text_eq_iff f g).0 same)))
      | inr other ↦ rw (more, e, other) refl
    ]
    | inr (v, e) ↦ rw (more, e) refl
  ]
