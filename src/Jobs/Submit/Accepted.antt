-- ===== src/Jobs/Submit/Accepted.antt =====
-- jobs/jobManager.go, ProcessSubmit: its ways through a submission.
use not_only_mining_pool.Common.{
  ℕ, ◌≡◌, ◌≢◌, sym, ap, ◌∙◌, subst, ◌⊎◌, inl, inr, Bool, true, false, Option, none, some, [], Bytes,
  arith, text_eq, text_eq_iff, if◌then◌else◌, Bool-cases, Option-cases,
}
use not_only_mining_pool.Common.Dict.{lookup, insert}
use not_only_mining_pool.Common.Fallible.{◌>>=◌, >>=-eq-some}
use not_only_mining_pool.Common.Float.{Float64}
use not_only_mining_pool.Utils.Hex.{hex_encode}
use not_only_mining_pool.Utils.Search.{contains}
use not_only_mining_pool.Jobs.Job.{Job, register_submit, serialize_block, serialize_coinbase}
use not_only_mining_pool.Jobs.Job.Register.{submission, register_submit_lem}
use not_only_mining_pool.Jobs.Share.{
  ShareError, job_not_found, duplicate_share, BigFloat, Share, refused,
}
use not_only_mining_pool.Jobs.Manager.{Options, JobManager}
use not_only_mining_pool.Jobs.Submit.{
  Algorithm, first_part, rig_of, reaches, Submission, check_submission, coinbase_of, header_of,
  hash_of, share_diff, judge, submit_to, process_submit,
}

module _ (decode : Bytes → Option Bytes) {fl : Float64} (bf : BigFloat fl) where
  open bf use {B, of_float, quo, less, to_float}

  module _ (opts : Options decode fl) (alg : Algorithm) where
    abbrev pub texts : Submission decode bf opts alg → Bytes
    texts s = submission (hex_encode s.extra_nonce1) s.extra_nonce2 s.n_time s.nonce

    -- Why a share is good: its hash reaches the target of the job, or the miner's difficulty, or the one
    -- that the miner had before.
    abbrev pub Works : Job → Option B → B → Bytes → Type 0
    Works job prev_diff diff header =
        (reaches job.target (hash_of decode bf opts alg header) ≡ true)
        ⊎ (less (quo (share_diff decode bf opts alg (hash_of decode bf opts alg header)) diff)
              (of_float (fl.div (fl.of_nat 99) (fl.of_nat 100)))
            ≡ false)
        ⊎ ((prev : B) × (prev_diff ≡ some prev)
            × (less (share_diff decode bf opts alg (hash_of decode bf opts alg header)) prev
                ≡ false))

    -- What an accepted share rests on.
    pub record Good (s : Submission decode bf opts alg) (jm : JobManager decode fl)
        (prev_diff : Option B) (diff : B) (now : ℕ) (job : Job) (share : Share fl) (header : Bytes)
        : Type 0 where
      pub valid : lookup s.job_id jm.valid_jobs ≡ some job
      pub checked : check_submission decode bf opts alg s job now ≡ none
      pub unseen : contains (texts s) job.submits ≡ false
      pub hashed : header_of decode bf opts alg s job ≡ some header
      pub works : Works job prev_diff diff header
      pub block : share.block_hex ≡ (
          if reaches job.target (hash_of decode bf opts alg header)
          then hex_encode (serialize_block job header (coinbase_of decode bf opts alg s job))
          else [])

    judge-Works :
        (s : Submission decode bf opts alg) (job : Job) (prev_diff : Option B) (diff : B)
        (header : Bytes)
        → (judge decode bf opts alg s job prev_diff diff header).error ≡ none
        → Works job prev_diff diff header
          × ((judge decode bf opts alg s job prev_diff diff header).block_hex ≡ (
              if reaches job.target (hash_of decode bf opts alg header)
              then hex_encode (serialize_block job header (coinbase_of decode bf opts alg s job))
              else []))
    unfolding judge refused
    judge-Works s job prev_diff diff header e = ground arith

    module _ (jm : JobManager decode fl) (s : Submission decode bf opts alg) (prev_diff : Option B)
        (diff : B) (now : ℕ) where
      abbrev pub registered : Job → Bool × Job
      registered job =
          register_submit job (hex_encode s.extra_nonce1) s.extra_nonce2 s.n_time s.nonce

      -- The three ways through submit_to.
      pub submit_to_cases :
          (job : Job)
          → ((e : ShareError) × (check_submission decode bf opts alg s job now ≡ some e)
              × (submit_to decode bf opts alg jm job s prev_diff diff now
                  ≡ some (refused fl s.job_id (first_part s.worker) (rig_of s.worker) e, jm)))
            ⊎ ((check_submission decode bf opts alg s job now ≡ none)
                × ((registered job).0 ≡ false)
                × (submit_to decode bf opts alg jm job s prev_diff diff now
                    ≡ some (
                      refused fl s.job_id (first_part s.worker) (rig_of s.worker) duplicate_share,
                      jm,
                    )))
            ⊎ ((check_submission decode bf opts alg s job now ≡ none)
                × ((registered job).0 ≡ true)
                × (submit_to decode bf opts alg jm job s prev_diff diff now ≡ (
                    header_of decode bf opts alg s (registered job).1 >>= λ header. some (
                      judge decode bf opts alg s (registered job).1 prev_diff diff header,
                      record jm { valid_jobs = insert s.job_id (registered job).1 jm.valid_jobs },
                    ))))
      unfolding submit_to
      submit_to_cases job = elim (Option-cases (check_submission decode bf opts alg s job now)) [
        | inr (e, bad) ↦ inl (e, bad, rw (bad, submit_to))
        | inl good ↦ inr (elim (Bool-cases (registered job).0) [
          | inl fresh ↦ inr (good, fresh, rw (good, submit_to) (rw fresh))
          | inr old ↦ inl (good, old, rw (good, submit_to) (rw old))
        ])
      ]

      -- What was done where a share without an error came out.
      pub record Done (job : Job) (share : Share fl) (jm' : JobManager decode fl) (header : Bytes)
          : Type 0 where
        pub checked : check_submission decode bf opts alg s job now ≡ none
        pub fresh : (registered job).0 ≡ true
        pub hashed : header_of decode bf opts alg s (registered job).1 ≡ some header
        pub judged : judge decode bf opts alg s (registered job).1 prev_diff diff header ≡ share
        pub stored :
            record jm { valid_jobs = insert s.job_id (registered job).1 jm.valid_jobs } ≡ jm'

      pub refused_error :
          (e : ShareError) (share : Share fl)
          → refused fl s.job_id (first_part s.worker) (rig_of s.worker) e ≡ share
          → share.error ≢ none
      unfolding refused
      refused_error e share same none_there = cc (ap (λ (sh : Share fl). sh.error) same)

      pub submit_to-Done :
          (job : Job) (share : Share fl) (jm' : JobManager decode fl)
          → submit_to decode bf opts alg jm job s prev_diff diff now ≡ some (share, jm')
          → share.error ≡ none
          → (header : Bytes) × Done job share jm' header
      submit_to-Done job share jm' h ok = elim (submit_to_cases job) [
        | inl (e, bad, r) ↦ absurd (refused_error e share (cc (r, h)) ok)
        | inr (inl (good, old, r)) ↦ absurd (refused_error duplicate_share share (cc (r, h)) ok)
        | inr (inr (good, fresh, r)) ↦
            let (header, hashed, last) =
              >>=-eq-some (header_of decode bf opts alg s (registered job).1) _ (sym r ∙ h) in
            (
              header,
              record {
                checked = good;
                fresh = fresh;
                hashed = hashed;
                judged = cc last;
                stored = cc last;
              },
            )
      ]

      abbrev pub unknown : Share fl × JobManager decode fl
      unknown = (refused fl s.job_id (first_part s.worker) (rig_of s.worker) job_not_found, jm)

      -- A valid job of that id is asked, and otherwise the share is refused.
      pub process_submit_cases :
          (process_submit decode bf opts alg jm s prev_diff diff now ≡ some unknown)
          ⊎ ((job : Job) × (lookup s.job_id jm.valid_jobs ≡ some job)
              × (job.job_id ≡ s.job_id)
              × (process_submit decode bf opts alg jm s prev_diff diff now
                  ≡ submit_to decode bf opts alg jm job s prev_diff diff now))
      unfolding process_submit
      process_submit_cases = elim (Option-cases (lookup s.job_id jm.valid_jobs)) [
        | inl missing ↦ inl (rw (missing, process_submit))
        | inr (job, found) ↦ elim (Bool-cases (text_eq job.job_id s.job_id)) [
          | inl same ↦ inr (
            job,
            found,
            (text_eq_iff job.job_id s.job_id).0 same,
            rw (found, process_submit) (rw same),
          )
          | inr other ↦ inl (rw (found, process_submit) (rw other))
        ]
      ]

      Done-Good :
          (job : Job) (share : Share fl) (jm' : JobManager decode fl) (header : Bytes)
          → lookup s.job_id jm.valid_jobs ≡ some job
          → share.error ≡ none
          → Done job share jm' header
          → Good s jm prev_diff diff now job share header
      unfolding header_of coinbase_of serialize_coinbase serialize_block
      Done-Good job share jm' header found ok d =
          let job' = (registered job).1 in
          let seen =
            register_submit_lem job (hex_encode s.extra_nonce1) s.extra_nonce2 s.n_time s.nonce in
          let kept : record job' { submits = job.submits } ≡ job = seen.2 in
          let good =
            judge-Works s job' prev_diff diff header
              (ap (λ (sh : Share fl). sh.error) d.judged ∙ ok) in
          record {
            valid = found;
            checked = d.checked;
            unseen = ground (arith, seen.0, d.fresh);
            hashed = subst (λ j. header_of decode bf opts alg s j ≡ some header) kept d.hashed;
            works = subst (λ j. Works j prev_diff diff header) kept good.0;
            block =
                subst
                  (λ (j : Job). share.block_hex ≡ (
                    if reaches j.target (hash_of decode bf opts alg header)
                    then hex_encode (serialize_block j header (coinbase_of decode bf opts alg s j))
                    else []))
                  kept (ap (λ (sh : Share fl). sh.block_hex) (sym d.judged) ∙ good.1);
          }

      -- An accepted share is good.
      pub accepted-Good :
          (share : Share fl) (jm' : JobManager decode fl)
          → process_submit decode bf opts alg jm s prev_diff diff now ≡ some (share, jm')
          → share.error ≡ none
          → (job : Job) × (header : Bytes) × Good s jm prev_diff diff now job share header
      accepted-Good share jm' h ok = elim process_submit_cases [
        | inl r ↦ absurd (refused_error job_not_found share (cc (r, h)) ok)
        | inr (job, found, named, r) ↦
            let (header, d) = submit_to-Done job share jm' (sym r ∙ h) ok in
            (job, header, Done-Good job share jm' header found ok d)
      ]
