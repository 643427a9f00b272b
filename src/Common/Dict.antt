-- ===== src/Common/Dict.antt =====
-- Go's maps with string keys: association lists with one entry for a key.
use mathlib.Core.Path.{◌≡◌, refl}
use mathlib.Core.List.{List, [], ◌∷◌}
use mathlib.Core.Option.{Option, none, some}
use native.Mathlib.Omega.{arith}
use not_only_mining_pool.Common.Tests.{if◌then◌else◌}
use not_only_mining_pool.Common.Texts.{Bytes, text_eq, text_eq_iff, text_eq_self}

abbrev pub Dict {ℓ} : Type ℓ → Type ℓ
Dict V = List (Bytes × V)

module _ {ℓ} {V : Type ℓ} where
  unfoldable pub lookup : Bytes → Dict V → Option V
  lookup k [] = none
  lookup k ((j, v) ∷ m) = if text_eq j k then some v else lookup k m

  -- `m[k] = v`
  unfoldable pub insert : Bytes → V → Dict V → Dict V
  insert k v [] = (k, v) ∷ []
  insert k v ((j, w) ∷ m) = if text_eq j k then (k, v) ∷ m else (j, w) ∷ insert k v m

  -- `delete(m, k)`
  unfoldable pub delete : Bytes → Dict V → Dict V
  delete k [] = []
  delete k ((j, v) ∷ m) = if text_eq j k then delete k m else (j, v) ∷ delete k m

  pub lookup-insert :
      (k j : Bytes) (v : V) (m : Dict V)
      → lookup j (insert k v m) ≡ (if text_eq k j then some v else lookup j m)
  unfolding lookup insert
  lookup-insert k j v [] = refl
  lookup-insert k j v ((i, w) ∷ m) =
      ground (arith, text_eq_iff k j, text_eq_iff i k, text_eq_iff i j, lookup-insert k j v m)

  pub lookup-delete :
      (k j : Bytes) (m : Dict V)
      → lookup j (delete k m) ≡ (if text_eq k j then none else lookup j m)
  unfolding lookup delete
  lookup-delete k j [] = ground arith
  lookup-delete k j ((i, w) ∷ m) =
      ground (arith, text_eq_iff k j, text_eq_iff i k, text_eq_iff i j, lookup-delete k j m)

  -- `for k, v := range m`: a key is visited once, with its value.
  unfoldable pub range : Dict V → Dict V
  range [] = []
  range ((k, v) ∷ m) = (k, v) ∷ delete k (range m)

  -- The keys of a Go map are distinct.
  abbrev pub Distinct : Dict V → Type ℓ
  Distinct [] = Unit
  Distinct ((k, v) ∷ m) = (lookup k m ≡ none) × Distinct m

  delete-Distinct : (k : Bytes) (m : Dict V) → Distinct m → Distinct (delete k m)
  unfolding delete
  delete-Distinct k [] d = tt
  delete-Distinct k ((j, v) ∷ m) d =
      ground (arith, text_eq_iff j k, text_eq_iff k j, lookup-delete k j m, delete-Distinct k m d.1)

  pub range-Distinct : (m : Dict V) → Distinct (range m)
  unfolding range
  range-Distinct [] = tt
  range-Distinct ((k, v) ∷ m) =
      let e : lookup k (delete k (range m)) ≡ none =
        rw (lookup-delete k k (range m), text_eq_self k) refl in
      (e, delete-Distinct k (range m) (range-Distinct m))

  pub lookup-range : (k : Bytes) (m : Dict V) → lookup k (range m) ≡ lookup k m
  unfolding range lookup
  lookup-range k [] = refl
  lookup-range k ((j, v) ∷ m) =
      ground (arith, text_eq_iff j k, lookup-delete j k (range m), lookup-range k m)

  pub insert-Distinct : (k : Bytes) (v : V) (m : Dict V) → Distinct m → Distinct (insert k v m)
  unfolding insert lookup
  insert-Distinct k v [] d = (refl, tt)
  insert-Distinct k v ((j, w) ∷ m) d =
      ground
        (arith, text_eq_iff j k, text_eq_iff k j, lookup-insert k j v m, insert-Distinct k v m d.1)
