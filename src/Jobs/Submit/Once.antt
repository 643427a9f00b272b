-- ===== src/Jobs/Submit/Once.antt =====
-- jobs/jobManager.go, ProcessSubmit: a submission that comes again.
use not_only_mining_pool.Common.{
  ℕ, ◌≤◌, ◌≡◌, refl, sym, ap, ◌∙◌, subst, inl, inr, true, false, Option, none, some, List, Bytes,
  arith, text_eq, text_eq_iff, text_eq_self,
}
use not_only_mining_pool.Common.Dict.{lookup, insert, lookup-insert}
use not_only_mining_pool.Common.Float.{Float64}
use not_only_mining_pool.Utils.Hex.{hex_encode}
use not_only_mining_pool.Utils.Search.{contains}
use not_only_mining_pool.Jobs.Job.{Job}
use not_only_mining_pool.Jobs.Job.Register.{register_submit_lem}
use not_only_mining_pool.Jobs.Share.{job_not_found, duplicate_share, BigFloat, Share, refused}
use not_only_mining_pool.Jobs.Manager.{Options, JobManager}
use not_only_mining_pool.Jobs.Submit.{
  Algorithm, first_part, rig_of, Submission, check_submission, is_after, process_submit,
}
use not_only_mining_pool.Jobs.Submit.Accepted.{
  texts, registered, submit_to_cases, submit_to-Done, refused_error, process_submit_cases,
}

module _ (decode : Bytes → Option Bytes) {fl : Float64} (bf : BigFloat fl) where
  open bf use {B}

  module _ (opts : Options decode fl) (alg : Algorithm) (s : Submission decode bf opts alg) where
    -- The checks that were passed are passed later, too: only the bound on the time moves, and forward.
    pub check_submission_later :
        (job : Job) (now later : ℕ)
        → now ≤ later
        → check_submission decode bf opts alg s job now ≡ none
        → check_submission decode bf opts alg s job later ≡ none
    unfolding check_submission is_after
    check_submission_later job now later h e = ground arith

    pub check_submission_submits :
        (job : Job) (seen : List Bytes) (now : ℕ)
        → check_submission decode bf opts alg s (record job { submits = seen }) now
          ≡ check_submission decode bf opts alg s job now
    unfolding check_submission
    check_submission_submits job seen now = refl

    -- A job that has seen the texts refuses them.
    seen_is_duplicate :
        (jm : JobManager decode fl) (job : Job) (prev_diff : Option B) (diff : B) (now : ℕ)
        → lookup s.job_id jm.valid_jobs ≡ some job
        → job.job_id ≡ s.job_id
        → check_submission decode bf opts alg s job now ≡ none
        → contains (texts decode bf opts alg s) job.submits ≡ true
        → process_submit decode bf opts alg jm s prev_diff diff now
          ≡ some (refused fl s.job_id (first_part s.worker) (rig_of s.worker) duplicate_share, jm)
    unfolding process_submit
    seen_is_duplicate jm job prev_diff diff now found named good seen =
        let same : text_eq job.job_id s.job_id ≡ true = (text_eq_iff job.job_id s.job_id).1 named in
        rw (found, process_submit)
          (rw same (elim (submit_to_cases decode bf opts alg jm s prev_diff diff now job) [
            | inl (e, bad, r) ↦ cc
            | inr (inl (ok, old, r)) ↦ r
            | inr (inr (ok, fresh, r)) ↦
                let reg =
                  register_submit_lem job (hex_encode s.extra_nonce1) s.extra_nonce2 s.n_time
                    s.nonce in
                absurd (contradiction (sym fresh ∙ reg.0 ∙ rw seen))
          ]))
      where
        contradiction : true ≡ false → ⊥
        contradiction e = cc

    -- A submission that was accepted is not accepted again by the jobs that it left: at every later time,
    -- and whatever the miner's difficulty, the same texts for the same job are a duplicate share and change
    -- nothing.
    pub accepted_then_duplicate :
        (jm jm' : JobManager decode fl) (share : Share fl) (prev_diff prev_diff' : Option B)
        (diff diff' : B) (now later : ℕ)
        → process_submit decode bf opts alg jm s prev_diff diff now ≡ some (share, jm')
        → share.error ≡ none
        → now ≤ later
        → process_submit decode bf opts alg jm' s prev_diff' diff' later
          ≡ some (refused fl s.job_id (first_part s.worker) (rig_of s.worker) duplicate_share, jm')
    accepted_then_duplicate jm jm' share prev_diff prev_diff' diff diff' now later h ok le =
        elim (process_submit_cases decode bf opts alg jm s prev_diff diff now) [
          | inl r ↦ absurd (
              refused_error decode bf opts alg jm s prev_diff diff now job_not_found share
                (cc (r, h)) ok)
          | inr (job, found, named, r) ↦
              let (header, d) =
                submit_to-Done decode bf opts alg jm s prev_diff diff now job share jm' (sym r ∙ h)
                  ok in
              let job' = (registered decode bf opts alg jm s prev_diff diff now job).1 in
              let reg =
                register_submit_lem job (hex_encode s.extra_nonce1) s.extra_nonce2 s.n_time
                  s.nonce in
              let good : check_submission decode bf opts alg s job' later ≡ none =
                sym (check_submission_submits job' job.submits later)
                ∙ ap (λ j. check_submission decode bf opts alg s j later) reg.2
                ∙ check_submission_later job now later le d.checked in
              let seen : contains (texts decode bf opts alg s) job'.submits ≡ true =
                reg.1 (texts decode bf opts alg s)
                ∙ ground (arith, text_eq_self (texts decode bf opts alg s)) in
              subst
                (λ m.
                  process_submit decode bf opts alg m s prev_diff' diff' later
                  ≡ some (
                    refused fl s.job_id (first_part s.worker) (rig_of s.worker) duplicate_share,
                    m,
                  ))
                d.stored
                (seen_is_duplicate (record jm { valid_jobs = insert s.job_id job' jm.valid_jobs })
                  job' prev_diff' diff' later
                  (lookup-insert s.job_id s.job_id job' jm.valid_jobs ∙ rw (text_eq_self s.job_id))
                  (ap (λ (j : Job). j.job_id) reg.2 ∙ named) good seen)
        ]
