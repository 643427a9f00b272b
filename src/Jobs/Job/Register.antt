-- ===== src/Jobs/Job/Register.antt =====
-- What RegisterSubmit accepts.
use not_only_mining_pool.Common.{
  ◌≡◌, refl, inl, inr, true, false, List, [], ◌∷◌, ◌++◌, Bytes, arith, text_eq, text_eq_iff,
  if◌then◌else◌, Bool-cases, ◌||◌, ◌∙◌,
}
use not_only_mining_pool.Utils.Search.{contains, strings_index_of-contains}
use not_only_mining_pool.Jobs.Job.{Job, register_submit}

-- The four texts of a submission, joined as RegisterSubmit joins them.
abbrev pub submission : Bytes → Bytes → Bytes → Bytes → Bytes
submission extra_nonce1 extra_nonce2 n_time nonce =
    extra_nonce1 ++ (extra_nonce2 ++ (n_time ++ nonce))

contains-append :
    (e : Bytes) (vs ws : List Bytes) → contains e (vs ++ ws) ≡ (contains e vs || contains e ws)
unfolding contains
contains-append e [] ws = refl
contains-append e (v ∷ vs) ws = ground (arith, contains-append e vs ws)

module _ (j : Job) (e1 e2 t n : Bytes) where
  -- RegisterSubmit accepts a submission exactly when the job has not recorded the same text before; it
  -- then records it, and nothing else, and a refused one leaves the job as it was.
  pub register_submit_lem :
      ((register_submit j e1 e2 t n).0
        ≡ (if contains (submission e1 e2 t n) j.submits then false else true))
      × ((s : Bytes)
          → contains s (register_submit j e1 e2 t n).1.submits
            ≡ (contains s j.submits || text_eq s (submission e1 e2 t n)))
      × (record (register_submit j e1 e2 t n).1 { submits = j.submits } ≡ j)
  unfolding register_submit contains
  register_submit_lem = elim (strings_index_of-contains j.submits (submission e1 e2 t n)) [
    | inl (new, at) ↦
        rw (new, at, register_submit)
          (
            refl,
            (λ s.
                contains-append s j.submits (submission e1 e2 t n ∷ [])
                ∙ ground (arith, Bool-cases (contains s j.submits))),
            refl,
          )
    | inr (old, i, at) ↦
        rw (old, at, register_submit)
          (refl, (λ s. ground (arith, text_eq_iff s (submission e1 e2 t n), old)), refl)
  ]
