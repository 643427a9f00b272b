-- ===== src/Jobs/Submit/Replay.antt =====
-- jobs/jobManager.go, ProcessSubmit: the texts of a submission are compared, but the bytes that they decode to
-- are hashed, and a text that is not hexadecimal decodes to what stands in front of the fault.
use not_only_mining_pool.Common.{
  ℕ, ◌≤◌, ◌≡◌, refl, sym, ap, ◌∙◌, inl, inr, Bool, true, false, Option, none, some, List, [], ◌∷◌,
  ◌++◌, Bytes, arith, length, length-append, text_eq, text_eq_iff, text_eq_self, Bool-cases,
}
use not_only_mining_pool.Common.Dict.{lookup, insert, lookup-insert}
use not_only_mining_pool.Common.Fallible.{>>=-some}
use not_only_mining_pool.Common.Float.{Float64}
use not_only_mining_pool.Utils.Hex.{hex_encode, hex_value, hex_pair, hex_decode, is_hex}
use not_only_mining_pool.Utils.Search.{contains}
use not_only_mining_pool.Jobs.Job.{Job, serialize_block, serialize_coinbase}
use not_only_mining_pool.Jobs.Job.Register.{register_submit_lem}
use not_only_mining_pool.Jobs.Share.{job_not_found, BigFloat, Share}
use not_only_mining_pool.Jobs.Manager.{Options, JobManager}
use not_only_mining_pool.Jobs.Submit.{
  Algorithm, Submission, check_submission, coinbase_of, header_of, judge, submit_to, process_submit,
}
use not_only_mining_pool.Jobs.Submit.Once.{check_submission_later, check_submission_submits}
use not_only_mining_pool.Jobs.Submit.Accepted.{
  texts, registered, Done, submit_to_cases, submit_to-Done, refused_error, process_submit_cases,
}

-- Bytes behind a text of digits that begin with none do not change what it decodes to.
hex_decode-append_junk :
    (x : Bytes) (g : ℕ) (gs : Bytes)
    → is_hex x ≡ true
    → hex_value g ≡ none
    → hex_decode (x ++ (g ∷ gs)) ≡ hex_decode x
unfolding hex_decode is_hex
hex_decode-append_junk [] g [] h bad = refl
hex_decode-append_junk [] g (d ∷ gs) h bad = rw (bad, hex_pair)
hex_decode-append_junk (c ∷ []) g gs h bad = cc
hex_decode-append_junk (c ∷ d ∷ x) g gs h bad =
    ap (hex_pair (hex_value c) (hex_value d))
      (hex_decode-append_junk x g gs (tail_hex (hex_value c) (hex_value d) h) bad)
  where
    tail_hex :
        (hi lo : Option ℕ)
        → (elim hi as (λ _. Bool) [
          | none ↦ false
          | some h ↦ elim lo as (λ _. Bool) [ none ↦ false | some l ↦ is_hex x ]
        ])
          ≡ true
        → is_hex x ≡ true
    tail_hex (some hi) (some lo) e = e
    tail_hex (some hi) none e = cc
    tail_hex none lo e = cc

module _ (decode : Bytes → Option Bytes) {fl : Float64} (bf : BigFloat fl) where
  open bf use {B}

  module _ (opts : Options decode fl) (alg : Algorithm) (s : Submission decode bf opts alg) (g : ℕ)
      (gs : Bytes) where
    -- The submission with junk behind its second extra nonce.
    abbrev pub altered : Submission decode bf opts alg
    altered = record s { extra_nonce2 = s.extra_nonce2 ++ (g ∷ gs) }

    other_text : text_eq (texts decode bf opts alg altered) (texts decode bf opts alg s) ≡ false
    other_text =
        elim (Bool-cases
          (text_eq (texts decode bf opts alg altered) (texts decode bf opts alg s))) [
            | inr differ ↦ differ
            | inl same ↦ absurd (
                omega (
                  arith,
                  ap length (
                      (text_eq_iff (texts decode bf opts alg altered)
                          (texts decode bf opts alg s)).0
                        same),
                  length-append (hex_encode s.extra_nonce1)
                      (s.extra_nonce2 ++ (s.n_time ++ s.nonce)),
                  length-append s.extra_nonce2 (s.n_time ++ s.nonce),
                  length-append (hex_encode s.extra_nonce1)
                      ((s.extra_nonce2 ++ (g ∷ gs)) ++ (s.n_time ++ s.nonce)),
                  length-append (s.extra_nonce2 ++ (g ∷ gs)) (s.n_time ++ s.nonce),
                  length-append s.extra_nonce2 (g ∷ gs),
                ))
          ]

    module _ (same : hex_decode (s.extra_nonce2 ++ (g ∷ gs)) ≡ hex_decode s.extra_nonce2) where
      check_altered :
          (job : Job) (now : ℕ)
          → check_submission decode bf opts alg altered job now
            ≡ check_submission decode bf opts alg s job now
      unfolding check_submission
      check_altered job now = rw same

      header_altered :
          (job : Job) (seen : List Bytes)
          → header_of decode bf opts alg altered (record job { submits = seen })
            ≡ header_of decode bf opts alg s job
      unfolding header_of coinbase_of serialize_coinbase
      header_altered job seen = rw same

      judge-altered :
          (job : Job) (seen : List Bytes) (prev_diff : Option B) (diff : B) (header : Bytes)
          → judge decode bf opts alg altered (record job { submits = seen }) prev_diff diff header
            ≡ judge decode bf opts alg s job prev_diff diff header
      unfolding judge coinbase_of serialize_coinbase serialize_block
      judge-altered job seen prev_diff diff header = rw same

    module _ (jm jm' : JobManager decode fl) (share : Share fl) (prev_diff : Option B) (diff : B)
        (now later : ℕ) where
      -- A job that has not seen the altered text does with it what it did with the original.
      altered_again :
          (job : Job) (header : Bytes)
          → hex_decode (s.extra_nonce2 ++ (g ∷ gs)) ≡ hex_decode s.extra_nonce2
          → contains (texts decode bf opts alg altered) job.submits ≡ false
          → now ≤ later
          → Done decode bf opts alg jm s prev_diff diff now job share jm' header
          → (jm'' : JobManager decode fl) × (submit_to decode bf opts alg jm'
                (registered decode bf opts alg jm s prev_diff diff now job).1
                altered
                prev_diff
                diff
                later
              ≡ some (share, jm''))
      altered_again job header same unseen le d =
          let job' = (registered decode bf opts alg jm s prev_diff diff now job).1 in
          let reg =
            register_submit_lem job (hex_encode s.extra_nonce1) s.extra_nonce2 s.n_time s.nonce in
          let reg' =
            register_submit_lem job' (hex_encode s.extra_nonce1) (s.extra_nonce2 ++ (g ∷ gs))
              s.n_time s.nonce in
          let job'' = (registered decode bf opts alg jm' altered prev_diff diff later job').1 in
          let good : check_submission decode bf opts alg altered job' later ≡ none =
            check_altered same job' later
            ∙ sym (check_submission_submits decode bf opts alg s job' job.submits later)
            ∙ ap (λ j. check_submission decode bf opts alg s j later) reg.2
            ∙ check_submission_later decode bf opts alg s job now later le d.checked in
          let new : contains (texts decode bf opts alg altered) job'.submits ≡ false =
            reg.1 (texts decode bf opts alg altered) ∙ ground (arith, unseen, other_text) in
          let back : record job'' { submits = job'.submits } ≡ job' = reg'.2 in
          let header_same : header_of decode bf opts alg altered job'' ≡ some header =
            header_altered same (record job'' { submits = job'.submits }) job''.submits
            ∙ ap (header_of decode bf opts alg s) back
            ∙ d.hashed in
          let share_same : judge decode bf opts alg altered job'' prev_diff diff header ≡ share =
            judge-altered same (record job'' { submits = job'.submits }) job''.submits prev_diff
              diff header
            ∙ ap (λ j. judge decode bf opts alg s j prev_diff diff header) back
            ∙ d.judged in
          let after : JobManager decode fl = record jm' {
            valid_jobs = insert s.job_id job'' jm'.valid_jobs;
          } in
          (
            after,
            elim (submit_to_cases decode bf opts alg jm' altered prev_diff diff later job') [
              | inl (e, bad, r) ↦ cc
              | inr (inl (ok, old, r)) ↦ absurd (ground (arith, reg'.0, new, old))
              | inr (inr (ok, fresh, r)) ↦
                  r ∙ >>=-some _ header_same (ap (λ sh. some (sh, after)) share_same)
            ],
          )

      -- A share is credited again under another text: once a submission with a hexadecimal second extra
      -- nonce was accepted, the one with any junk behind that nonce, whose first byte is no digit, gives
      -- the same share without an error, unless the job has seen that very text before.
      pub replayed_share_is_accepted :
          process_submit decode bf opts alg jm s prev_diff diff now ≡ some (share, jm')
          → share.error ≡ none
          → is_hex s.extra_nonce2 ≡ true
          → hex_value g ≡ none
          → ((job : Job)
              → lookup s.job_id jm.valid_jobs ≡ some job
              → contains (texts decode bf opts alg altered) job.submits ≡ false)
          → now ≤ later
          → (jm'' : JobManager decode fl) × (process_submit decode bf opts alg jm' altered prev_diff
                diff later
              ≡ some (share, jm''))
      unfolding process_submit
      replayed_share_is_accepted h ok hex bad unseen le =
          elim (process_submit_cases decode bf opts alg jm s prev_diff diff now) [
            | inl r ↦ absurd (
                refused_error decode bf opts alg jm s prev_diff diff now job_not_found share
                  (cc (r, h)) ok)
            | inr (job, found, named, r) ↦
                let (header, d) =
                  submit_to-Done decode bf opts alg jm s prev_diff diff now job share jm'
                    (sym r ∙ h) ok in
                let job' = (registered decode bf opts alg jm s prev_diff diff now job).1 in
                let reg =
                  register_submit_lem job (hex_encode s.extra_nonce1) s.extra_nonce2 s.n_time
                    s.nonce in
                let (jm'', again) =
                  altered_again job header (hex_decode-append_junk s.extra_nonce2 g gs hex bad)
                    (unseen job found) le d in
                let there : lookup s.job_id jm'.valid_jobs ≡ some job' =
                  ap (λ (m : JobManager decode fl). lookup s.job_id m.valid_jobs) (sym d.stored)
                  ∙ lookup-insert s.job_id s.job_id job' jm.valid_jobs
                  ∙ rw (text_eq_self s.job_id) in
                let id_same : text_eq job'.job_id s.job_id ≡ true =
                  (text_eq_iff job'.job_id s.job_id).1 (ap (λ (j : Job). j.job_id) reg.2 ∙ named) in
                (jm'', rw (there, process_submit) (rw id_same again))
          ]
