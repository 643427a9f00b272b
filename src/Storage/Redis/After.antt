-- ===== src/Storage/Redis/After.antt =====
-- What a pipeline leaves at the keys that it does not name, and at one that it names.
use not_only_mining_pool.Common.{
  ◌≡◌, refl, ap, ◌∙◌, Bool, true, false, List, [], ◌∷◌, ◌++◌, Bytes, Option, All,
}
use not_only_mining_pool.Common.Texts.{text_eq, text_eq_self}
use not_only_mining_pool.Storage.Redis.{
  Value, missing, string, hash, members, scored, is_member, Command, on, rename, smove, updated,
  written, renamed, moved, after, Redis, exec_all, Write,
}

pub updated_self : {A : Type 0} (k : Bytes) (v : A) (m : Bytes → A) → updated k v m k ≡ v
unfolding updated
updated_self k v m = rw (text_eq_self k) refl

pub updated-else :
    {A : Type 0} (k j : Bytes) (v : A) (m : Bytes → A) → text_eq k j ≡ false → updated k v m j ≡ m j
unfolding updated
updated-else k j v m h = rw h refl

-- The command does not name the key.
abbrev pub Misses : Bytes → Command → Type 0
Misses j (on k w) = text_eq k j ≡ false
Misses j (rename src dst) = (text_eq src j ≡ false) × (text_eq dst j ≡ false)
Misses j (smove src dst x) = (text_eq src j ≡ false) × (text_eq dst j ≡ false)

module _ (add_float : Bytes → Bytes → Option Bytes) where
  -- The values after a pipeline.
  unfoldable pub after_all : List Command → (Bytes → Value) → Bytes → Value
  after_all [] m = m
  after_all (c ∷ cs) m = after_all cs (after add_float c m)

  pub after_all-append :
      (cs ds : List Command) (m : Bytes → Value)
      → after_all (cs ++ ds) m ≡ after_all ds (after_all cs m)
  unfolding after_all
  after_all-append [] ds m = refl
  after_all-append (c ∷ cs) ds m = after_all-append cs ds (after add_float c m)

  renamed-else :
      (src dst j : Bytes) (v : Value) (m : Bytes → Value)
      → text_eq src j ≡ false
      → text_eq dst j ≡ false
      → renamed add_float src dst v m j ≡ m j
  unfolding renamed
  renamed-else src dst j missing m s d = refl
  renamed-else src dst j (string t) m s d = updated-else dst j _ _ d ∙ updated-else src j _ m s
  renamed-else src dst j (hash t) m s d = updated-else dst j _ _ d ∙ updated-else src j _ m s
  renamed-else src dst j (members t) m s d = updated-else dst j _ _ d ∙ updated-else src j _ m s
  renamed-else src dst j (scored t) m s d = updated-else dst j _ _ d ∙ updated-else src j _ m s

  moved-else :
      (b : Bool) (src dst x j : Bytes) (m : Bytes → Value)
      → text_eq src j ≡ false
      → text_eq dst j ≡ false
      → moved add_float b src dst x m j ≡ m j
  unfolding moved
  moved-else false src dst x j m s d = refl
  moved-else true src dst x j m s d = updated-else dst j _ _ d ∙ updated-else src j _ m s

  after-else :
      (c : Command) (j : Bytes) (m : Bytes → Value) → Misses j c → after add_float c m j ≡ m j
  unfolding after
  after-else (on k w) j m h = updated-else k j _ m h
  after-else (rename src dst) j m h = renamed-else src dst j (m src) m h.0 h.1
  after-else (smove src dst x) j m h = moved-else (is_member (m src) x) src dst x j m h.0 h.1

  pub after_all-else :
      (cs : List Command) (j : Bytes) (m : Bytes → Value)
      → All (Misses j) cs
      → after_all cs m j ≡ m j
  unfolding after_all
  after_all-else [] j m h = refl
  after_all-else (c ∷ cs) j m h =
      after_all-else cs j (after add_float c m) h.1 ∙ after-else c j m h.0

  pub after-on :
      (k : Bytes) (w : Write) (m : Bytes → Value)
      → after add_float (on k w) m k ≡ written add_float w (m k)
  unfolding after
  after-on k w m = updated_self k _ m

module _ (redis : Redis) where
  pub value-exec_all :
      (cs : List Command) (db : redis.Db)
      → redis.value (exec_all redis cs db) ≡ after_all redis.add_float cs (redis.value db)
  unfolding exec_all after_all
  value-exec_all [] db = refl
  value-exec_all (c ∷ cs) db =
      value-exec_all cs (redis.exec c db)
      ∙ ap (after_all redis.add_float cs) (redis.value-exec c db)
