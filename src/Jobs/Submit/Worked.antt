-- ===== src/Jobs/Submit/Worked.antt =====
-- jobs/jobManager.go, ProcessSubmit: what an accepted share rests on, in terms of its bytes and numbers.
use not_only_mining_pool.Common.{
  ℕ, ◌+◌, ◌-◌, ◌*◌, ◌%◌, ◌^◌, ◌<◌, ◌≤◌, ◌≡◌, refl, sym, ap, ◌∙◌, subst, ◌⊎◌, inl, inr, true, false,
  Option, none, some, [], ◌∷◌, ◌++◌, Bytes, Bool-cases, arith, codes, length, reverse, ltb, text_eq,
  if◌then◌else◌, Signed, plus, minus, ltb→lt,
}
use not_only_mining_pool.Common.Dict.{lookup}
use not_only_mining_pool.Common.Float.{Float64}
use not_only_mining_pool.Utils.Compact.{get_be}
use not_only_mining_pool.Utils.Hex.{hex_encode, hex_decode}
use not_only_mining_pool.Utils.Reverse.Laws.{reverse_bytes-eq-reverse}
use not_only_mining_pool.Utils.Search.{contains}
use not_only_mining_pool.Utils.Varint.{var_int_bytes}
use not_only_mining_pool.Merkle.{with_first}
use not_only_mining_pool.Jobs.Job.{
  Job, serialize_header, serialize_coinbase, serialize_block, get_vote_data,
}
use not_only_mining_pool.Jobs.Share.{BigFloat, Share}
use not_only_mining_pool.Jobs.Manager.{Options, JobManager}
use not_only_mining_pool.Jobs.Submit.{
  Algorithm, n_time_int, to_uint32, is_after, reaches, Submission, check_submission, coinbase_of,
  header_of, hash_of, share_diff, process_submit,
}
use not_only_mining_pool.Jobs.Submit.Accepted.{texts, Works, accepted-Good}

-- Not before a time as a uint32, and not after another.
abbrev pub Timely : Signed → ℕ → ℕ → Type 0
Timely (plus n) least most = (least ≤ n % 2 ^ 32) × (n ≤ most)
Timely (minus n) least most = least ≤ 2 ^ 32 - 1 - n % 2 ^ 32

timely :
    (t : Signed) (least most : ℕ)
    → ltb (to_uint32 t) least ≡ false
    → is_after t most ≡ false
    → Timely t least most
unfolding to_uint32 is_after
timely (plus n) least most low high = (ground arith, ground arith)
timely (minus n) least most low high = ground arith

-- A hash below a target, and one that is not.
abbrev pub Below : Signed → ℕ → Type 0
Below (plus target) hash = hash < target
Below (minus target) hash = ⊥

abbrev pub NotBelow : Signed → ℕ → Type 0
NotBelow (plus target) hash = target ≤ hash
NotBelow (minus target) hash = Unit

below : (target : Signed) (hash : ℕ) → reaches target hash ≡ true → Below target hash
unfolding reaches
below (plus n) hash e = ltb→lt hash n e
below (minus n) hash e = cc

not_below : (target : Signed) (hash : ℕ) → reaches target hash ≡ false → NotBelow target hash
unfolding reaches
not_below (plus n) hash e = ground arith
not_below (minus n) hash e = tt

module _ (decode : Bytes → Option Bytes) {fl : Float64} (bf : BigFloat fl) where
  open bf use {B, of_nat, of_float, quo, less, to_float}

  module _ (opts : Options decode fl) (alg : Algorithm) where
    -- The coinbase of a submission, and the block of a header.
    abbrev pub built_coinbase : Submission decode bf opts alg → Job → Bytes
    built_coinbase s job =
        job.generation1 ++ (s.extra_nonce1 ++ (hex_decode s.extra_nonce2 ++ job.generation2))

    abbrev pub built_block : Submission decode bf opts alg → Job → Bytes → Bytes
    built_block s job header =
        header
        ++ (var_int_bytes (length job.template.transactions + 1)
            ++ (built_coinbase s job
                ++ (job.transaction_data
                    ++ ((if job.template.masternode_payments
                          then var_int_bytes (length job.template.votes)
                          else [])
                        ++ (if text_eq job.reward (codes "POS") then 0 ∷ [] else [])))))

    -- The number of a header's hash, whose lowest byte is its first, and its difficulty.
    abbrev pub number_of : Bytes → ℕ
    number_of header = get_be 0 (reverse (alg.hash header))

    abbrev pub difficulty_of : Bytes → B
    difficulty_of header =
        quo (of_nat (0xffff * 2 ^ 208 * 2 ^ alg.multiplier)) (of_nat (number_of header))

    -- What an accepted share rests on.
    pub record Worked (s : Submission decode bf opts alg) (jm : JobManager decode fl)
        (prev_diff : Option B) (diff : B) (now : ℕ) (job : Job) (share : Share fl) (header : Bytes)
        : Type 0 where
      pub valid : lookup s.job_id jm.valid_jobs ≡ some job
      pub nonce2_size : length (hex_decode s.extra_nonce2) ≡ opts.extra_nonce2_size
      pub time_size : length s.n_time ≡ 8
      pub nonce_size : length s.nonce ≡ 8
      pub timed : Timely (n_time_int s.n_time) job.template.cur_time (now + 7)
      pub unseen : contains (texts decode bf opts alg s) job.submits ≡ false
      pub hashed :
          serialize_header job.template
            (reverse (
              with_first opts.coinbase_hasher job.merkle_steps
                (opts.coinbase_hasher (built_coinbase s job))))
            (hex_decode s.n_time)
            (hex_decode s.nonce)
          ≡ some header
      pub works :
          Below job.target (number_of header)
          ⊎ (less
                (quo (difficulty_of header) diff)
                (of_float (fl.div (fl.of_nat 99) (fl.of_nat 100)))
              ≡ false)
          ⊎ ((prev : B) × (prev_diff ≡ some prev) × (less (difficulty_of header) prev ≡ false))
      pub block :
          (Below job.target (number_of header)
            × (share.block_hex ≡ hex_encode (built_block s job header)))
          ⊎ (NotBelow job.target (number_of header) × (share.block_hex ≡ []))

    -- The checks that none of them fails.
    record Checked (s : Submission decode bf opts alg) (job : Job) (now : ℕ) : Type 0 where
      nonce2 : length (hex_decode s.extra_nonce2) ≡ opts.extra_nonce2_size
      time : length s.n_time ≡ 8
      nonce : length s.nonce ≡ 8
      low : ltb (to_uint32 (n_time_int s.n_time)) job.template.cur_time ≡ false
      high : is_after (n_time_int s.n_time) (now + 7) ≡ false

    check_submission-Checked :
        (s : Submission decode bf opts alg) (job : Job) (now : ℕ)
        → check_submission decode bf opts alg s job now ≡ none
        → Checked s job now
    unfolding check_submission
    check_submission-Checked s job now e = record {
      nonce2 = ground arith;
      time = ground arith;
      nonce = ground arith;
      low = ground arith;
      high = ground arith;
    }

    number-eq : (header : Bytes) → hash_of decode bf opts alg header ≡ number_of header
    unfolding hash_of
    number-eq header = ap (get_be 0) (reverse_bytes-eq-reverse (alg.hash header))

    Works-Below :
        (job : Job) (prev_diff : Option B) (diff : B) (header : Bytes)
        → Works decode bf opts alg job prev_diff diff header
        → Below job.target (number_of header)
          ⊎ (less
                (quo (difficulty_of header) diff)
                (of_float (fl.div (fl.of_nat 99) (fl.of_nat 100)))
              ≡ false)
          ⊎ ((prev : B) × (prev_diff ≡ some prev) × (less (difficulty_of header) prev ≡ false))
    unfolding share_diff
    Works-Below job prev_diff diff header (inl e) =
        inl (below job.target _ (ap (reaches job.target) (sym (number-eq header)) ∙ e))
    Works-Below job prev_diff diff header (inr (inl e)) = inr (
        inl (
          subst
            (λ n.
              less (quo (quo (of_nat (0xffff * 2 ^ 208 * 2 ^ alg.multiplier)) (of_nat n)) diff)
                (of_float (fl.div (fl.of_nat 99) (fl.of_nat 100)))
              ≡ false)
            (number-eq header) e))
    Works-Below job prev_diff diff header (inr (inr (prev, had, e))) = inr (
        inr (
          prev,
          had,
          subst
              (λ n.
                less (quo (of_nat (0xffff * 2 ^ 208 * 2 ^ alg.multiplier)) (of_nat n)) prev ≡ false)
              (number-eq header) e,
        ))

    block-eq :
        (s : Submission decode bf opts alg) (job : Job) (header : Bytes)
        → serialize_block job header (coinbase_of decode bf opts alg s job)
          ≡ built_block s job header
    unfolding serialize_block coinbase_of serialize_coinbase get_vote_data
    block-eq s job header = refl

    block-Below :
        (s : Submission decode bf opts alg) (job : Job) (share : Share fl) (header : Bytes)
        → share.block_hex ≡ (
            if reaches job.target (hash_of decode bf opts alg header)
            then hex_encode (serialize_block job header (coinbase_of decode bf opts alg s job))
            else [])
        → (Below job.target (number_of header)
            × (share.block_hex ≡ hex_encode (built_block s job header)))
          ⊎ (NotBelow job.target (number_of header) × (share.block_hex ≡ []))
    block-Below s job share header e =
        elim (Bool-cases (reaches job.target (hash_of decode bf opts alg header))) [
          | inl found ↦ inl (
            below job.target _ (ap (reaches job.target) (sym (number-eq header)) ∙ found),
            (rw found at e) ∙ ap hex_encode (block-eq s job header),
          )
          | inr missed ↦ inr (
            not_below job.target _ (ap (reaches job.target) (sym (number-eq header)) ∙ missed),
            rw missed at e,
          )
        ]

    header-eq :
        (s : Submission decode bf opts alg) (job : Job) (header : Bytes)
        → header_of decode bf opts alg s job ≡ some header
        → serialize_header job.template
            (reverse (
              with_first opts.coinbase_hasher job.merkle_steps
                (opts.coinbase_hasher (built_coinbase s job))))
            (hex_decode s.n_time)
            (hex_decode s.nonce)
          ≡ some header
    unfolding header_of coinbase_of serialize_coinbase
    header-eq s job header e =
        subst
          (λ r.
            serialize_header job.template r (hex_decode s.n_time) (hex_decode s.nonce)
            ≡ some header)
          (reverse_bytes-eq-reverse _) e

    -- A share is accepted only for a valid job, with a second extra nonce, a time and a nonce of their
    -- sizes, at a time that as a uint32 is not before the template's and is at most seven seconds ahead, for
    -- a text that the job has not seen, and for work: the hash of the header of the job's coinbase,
    -- with the extra nonces in it, and of that coinbase's Merkle root is below the target of the job,
    -- or its difficulty is at least 99 hundredths of the miner's, or at least the one that the miner had
    -- before. It carries a block, that header and coinbase with the job's transactions, votes and suffix,
    -- exactly when the hash is below the target.
    pub process_submit_accepts :
        (jm : JobManager decode fl) (s : Submission decode bf opts alg) (prev_diff : Option B)
        (diff : B) (now : ℕ) (share : Share fl) (jm' : JobManager decode fl)
        → process_submit decode bf opts alg jm s prev_diff diff now ≡ some (share, jm')
        → share.error ≡ none
        → (job : Job) × (header : Bytes) × Worked s jm prev_diff diff now job share header
    process_submit_accepts jm s prev_diff diff now share jm' h ok =
        let (job, header, g) =
          accepted-Good decode bf opts alg jm s prev_diff diff now share jm' h ok in
        let c = check_submission-Checked s job now g.checked in
        (
          job,
          header,
          record {
            valid = g.valid;
            nonce2_size = c.nonce2;
            time_size = c.time;
            nonce_size = c.nonce;
            timed = timely _ _ _ c.low c.high;
            unseen = g.unseen;
            hashed = header-eq s job header g.hashed;
            works = Works-Below job prev_diff diff header g.works;
            block = block-Below s job share header g.block;
          },
        )
