-- ===== src/Jobs/Manager/Templates.antt =====
-- What a new block template does to the jobs.
use not_only_mining_pool.Common.{
  ℕ, ◌<◌, ◌≡◌, ap, ◌∙◌, subst, ◌⊎◌, inl, inr, Option, none, some, [], Bytes, arith, ltb, ◌==◌,
  text_eq, text_eq_self, if◌then◌else◌, Bool-cases, Option-cases,
}
use not_only_mining_pool.Common.Dict.{lookup, insert, lookup-insert}
use not_only_mining_pool.Common.Fallible.{>>=-eq-some}
use not_only_mining_pool.Common.Float.{Float64}
use not_only_mining_pool.Utils.Reverse.{reverse_byte_order}
use not_only_mining_pool.Utils.Hex.{hex_decode}
use not_only_mining_pool.Jobs.Template.{Template}
use not_only_mining_pool.Jobs.Job.{Job, target_of, get_transaction_bytes, decode_transactions}
use not_only_mining_pool.Transactions.Generation.{create_generation}
use not_only_mining_pool.Jobs.Manager.{
  Options, JobManager, new_job, put_job, current, process_template,
}

module _ (decode : Bytes → Option Bytes) (fl : Float64) (opts : Options decode fl) where
  -- A job that was made of a template and has its id.
  abbrev pub MadeOf : Bytes → Template → Job → Type 0
  MadeOf id t job = (job.job_id ≡ id) × (job.template ≡ t) × (job.submits ≡ []) × (job.reward ≡ [])

  new_job-MadeOf :
      (id : Bytes) (t : Template) (now : ℕ) (job : Job)
      → new_job decode fl opts id t now ≡ some job
      → MadeOf id t job
  unfolding new_job
  new_job-MadeOf id t now job e =
      let (a, _, e1) = >>=-eq-some (target_of t) _ e in
      let (b, _, e2) = >>=-eq-some (reverse_byte_order (hex_decode t.previous_block_hash)) _ e1 in
      let (c, _, e3) = >>=-eq-some (get_transaction_bytes t.transactions) _ e2 in
      let (d, _, e4) =
        >>=-eq-some
          (create_generation decode fl t now opts.pool_script opts.extra_nonce_placeholder
            opts.coin_reward opts.tx_messages opts.recipients)
          _ e3 in
      let (f, _, e5) = >>=-eq-some (decode_transactions t.transactions) _ e4 in
      (
        fields (λ j. j.job_id) e5,
        fields (λ j. j.template) e5,
        fields (λ j. j.submits) e5,
        fields (λ j. j.reward) e5,
      )
    where
      fields : {A : Type 0} (f : Job → A) {x : Job} → some x ≡ some job → f job ≡ f x
      fields f {x} same = let e : job ≡ x = cc same in ap f e

  -- The manager after a job was put in.
  pub record Replaced (jm jm' : JobManager decode fl) (id : Bytes) (t : Template) : Type 0 where
    pub job : Job
    pub made : MadeOf id t job
    pub handed_out : current decode fl opts jm' ≡ some job
    pub others :
        (other : Bytes)
        → lookup other jm'.valid_jobs
          ≡ (if text_eq id other then some job else lookup other jm.valid_jobs)

  put_job-Replaced :
      (jm jm' : JobManager decode fl) (id : Bytes) (t : Template) (now : ℕ)
      → put_job decode fl opts jm id t now ≡ some jm'
      → Replaced jm jm' id t
  unfolding put_job current
  put_job-Replaced jm jm' id t now e =
      let (job, made, last) = >>=-eq-some (new_job decode fl opts id t now) _ e in
      let same : record { current_job = some id; valid_jobs = insert id job jm.valid_jobs } ≡ jm' =
        cc last in
      record {
        job = job;
        made = new_job-MadeOf id t now job made;
        handed_out =
            subst (λ m. current decode fl opts m ≡ some job) same
              (lookup-insert id id job jm.valid_jobs ∙ rw (text_eq_self id));
        others = λ other.
            subst
              (λ (m : JobManager decode fl).
                lookup other m.valid_jobs
                ≡ (if text_eq id other then some job else lookup other jm.valid_jobs))
              same (lookup-insert id other job jm.valid_jobs);
      }

  -- Where ProcessTemplate returns: a template of a lower height than the current job's is ignored. One of
  -- the same height replaces the job under its own id, with no submissions recorded, and any other becomes a
  -- job under the fresh id. In the last two cases the new job is the one that is handed out, and every other
  -- job stays valid.
  pub process_template_lem :
      (jm jm' : JobManager decode fl) (t : Template) (fresh : Bytes) (now : ℕ)
      → process_template decode fl opts jm t fresh now ≡ some jm'
      → ((job : Job) × (current decode fl opts jm ≡ some job)
          × (t.height < job.template.height)
          × (jm' ≡ jm))
        ⊎ ((job : Job) × (current decode fl opts jm ≡ some job)
            × (t.height ≡ job.template.height)
            × Replaced jm jm' job.job_id t)
        ⊎ (((current decode fl opts jm ≡ none)
              ⊎ ((job : Job) × (current decode fl opts jm ≡ some job)
                  × (job.template.height < t.height)))
            × Replaced jm jm' fresh t)
  unfolding process_template
  process_template_lem jm jm' t fresh now e = elim (Option-cases (current decode fl opts jm)) [
    | inl first ↦
        inr
          (inr (inl first, put_job-Replaced jm jm' fresh t now (rw (first, process_template) at e)))
    | inr (job, here) ↦
        let at_job = rw (here, process_template) at e in
        elim (Bool-cases (ltb t.height job.template.height)) [
          | inl lower ↦
              let kept : some jm ≡ some jm' = rw lower at at_job in
              inl (job, here, ground arith, cc kept)
          | inr not_lower ↦
              let at_level = rw not_lower at at_job in
              elim (Bool-cases (t.height == job.template.height)) [
                | inl level ↦ inr (
                    inl (
                      job,
                      here,
                      ground arith,
                      put_job-Replaced jm jm' job.job_id t now (rw level at at_level),
                    ))
                | inr higher ↦ inr (
                    inr (
                      inr (job, here, ground arith),
                      put_job-Replaced jm jm' fresh t now (rw higher at at_level),
                    ))
              ]
        ]
  ]
