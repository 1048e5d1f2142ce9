-- ===== src/Jobs/Effects.antt =====
-- What Submit and the end of a job do to the jobs and the queue.
use log_integrity.Prelude.{
  ◌≡◌, refl, sym, ap, ◌∙◌, ◌⊎◌, inl, inr, true, false, Option, none, some, [], ◌∷◌, ◌++◌, arith,
  Text, ◌==◌, text_eq, if_elim, Option-cases, is_empty, length, ltb,
}
use log_integrity.Prelude.GoMap.{get, put, get-put_ne, get-put_self, delete}
use log_integrity.Prelude.Int.{pos_part}
use log_integrity.Models.{Job, Time}
use log_integrity.Jobs.{
  Manager, TaskSpec, Submitted, Outcome, new_job, enqueue, reuse_active, find_active,
  submit_by_fingerprint, reuse_keyed, find_keyed, submit_by_key, submit, trimmed, finish, finished,
  drop_job, is_terminal_job_status, release_active_fingerprint,
}
use log_integrity.Jobs.Trim.{get-trim_history, trim_history_induction}
use log_integrity.Jobs.Valid.{finished-fields}

module _ (id : Text) (now : Time) where
  -- Nothing is queued, or one new job of the task is stored and queued.
  abbrev pub Queues : TaskSpec → Manager → Manager × Submitted → Type 0
  Queues spec m r =
      ((r.0.jobs ≡ m.jobs) × (r.0.queue ≡ m.queue))
      ⊎ ((r.0.jobs ≡ put m.jobs id (new_job spec id now)) × (r.0.queue ≡ m.queue ++ id ∷ []))

  enqueue-Queues : (m : Manager) (spec : TaskSpec) → Queues spec m (enqueue m spec id now)
  unfolding enqueue
  enqueue-Queues m spec =
      if_elim (Queues spec m) m.queue_closed _ _ (λ closed. inl (refl, refl))
        (λ op.
          if_elim (Queues spec m) (ltb (length m.queue) (pos_part m.opts.queue_size)) _ _
            (λ room. inr (refl, refl)) (λ full. inl (refl, refl)))

  find_active-Queues :
      (m : Manager) (spec : TaskSpec) (o : Option Text)
      → Queues spec m (find_active m spec id now o)
  unfolding find_active
  find_active-Queues m spec none = enqueue-Queues m spec
  find_active-Queues m spec (some k) = reuse (get m.jobs k)
    where
      reuse : (o : Option Job) → Queues spec m (reuse_active m spec id now k o)
      reuse (some job) = inl (refl, refl)
      reuse none =
          enqueue-Queues
            (record m { active_fingerprints = delete m.active_fingerprints spec.fingerprint }) spec

  by_fingerprint-Queues :
      (m : Manager) (spec : TaskSpec) → Queues spec m (submit_by_fingerprint m spec id now)
  unfolding submit_by_fingerprint
  by_fingerprint-Queues m spec =
      if_elim (Queues spec m) (is_empty spec.fingerprint) _ _ (λ e. enqueue-Queues m spec)
        (λ n. find_active-Queues m spec (get m.active_fingerprints spec.fingerprint))

  find_keyed-Queues :
      (m : Manager) (spec : TaskSpec) (o : Option Text) → Queues spec m (find_keyed m spec id now o)
  unfolding find_keyed
  find_keyed-Queues m spec none = by_fingerprint-Queues m spec
  find_keyed-Queues m spec (some k) = reuse (get m.jobs k)
    where
      reuse : (o : Option Job) → Queues spec m (reuse_keyed m spec id now o)
      reuse (some job) = inl (refl, refl)
      reuse none =
          by_fingerprint-Queues
            (record m { idempotency_keys = delete m.idempotency_keys spec.idempotency_key }) spec

  -- Submit leaves the jobs and the queue as they are, or it puts one new queued job of the
  -- trimmed task under the drawn identifier and appends that identifier to the queue.
  pub submit-Queues :
      (m : Manager) (spec : TaskSpec) → Queues (trimmed spec) m (submit m spec id now)
  unfolding submit submit_by_key
  submit-Queues m spec =
      if_elim (Queues (trimmed spec) m) m.shutting_down _ _ (λ down. inl (refl, refl))
        (λ up.
          if_elim (Queues (trimmed spec) m) (is_empty (trimmed spec).idempotency_key) _ _
            (λ e. by_fingerprint-Queues m (trimmed spec))
            (λ n.
              find_keyed-Queues m (trimmed spec)
                (get m.idempotency_keys (trimmed spec).idempotency_key)))

module _ (m : Manager) (id : Text) (outcome : Outcome) (now : Time) where
  -- The end of a job, with the trim after it, leaves under every other identifier a job that was
  -- there, and keeps it if it is unfinished.
  pub get-finish :
      (k : Text)
      → (id == k) ≡ false
      → ((j : Job) → get (finish m id outcome now).jobs k ≡ some j → get m.jobs k ≡ some j)
        × ((j : Job)
            → get m.jobs k ≡ some j
            → is_terminal_job_status j.status ≡ false
            → get (finish m id outcome now).jobs k ≡ some j)
  unfolding finish
  get-finish k n = elim (Option-cases (get m.jobs id)) [
    | inl gone ↦ rw (gone, finish) (λ j g. g, λ j g a. g)
    | inr (job, here) ↦
        rw (here, finish)
          (let r =
              get-trim_history
                (record m {
                  jobs = put m.jobs id (finished job outcome now);
                  active_fingerprints =
                      release_active_fingerprint m.active_fingerprints (finished job outcome now);
                })
                k in
            let e = get-put_ne m.jobs id (finished job outcome now) k n in
            (λ j g. sym e ∙ r.0 j g, λ j g a. r.1 j (e ∙ g) a))
  ]

  -- The job itself is finished, or gone.
  pub get-finish_self :
      (j : Job)
      → get (finish m id outcome now).jobs id ≡ some j
      → is_terminal_job_status j.status ≡ true
  unfolding finish
  get-finish_self j = elim (Option-cases (get m.jobs id)) [
    | inl gone ↦ rw (gone, finish) (λ g. absurd (ground arith))
    | inr (job, here) ↦
        rw (here, finish)
          (λ g.
            let r =
              get-trim_history
                (record m {
                  jobs = put m.jobs id (finished job outcome now);
                  active_fingerprints =
                      release_active_fingerprint m.active_fingerprints (finished job outcome now);
                })
                id in
            over job (sym (get-put_self m.jobs id (finished job outcome now)) ∙ r.0 j g))
  ]
    where
      over :
          (job : Job)
          → some (finished job outcome now) ≡ some j
          → is_terminal_job_status j.status ≡ true
      over job e =
          ap is_terminal_job_status (ap (λ (x : Job). x.status) (sym (same e)))
          ∙ (finished-fields job outcome now).2
        where
          same : {a b : Job} → some a ≡ some b → a ≡ b
          same p = cc

  pub queue-finish : (finish m id outcome now).queue ≡ m.queue
  unfolding finish drop_job
  queue-finish = elim (Option-cases (get m.jobs id)) [
    | inl gone ↦ rw (gone, finish) refl
    | inr (job, here) ↦
        rw (here, finish)
          (trim_history_induction (λ n. n.queue ≡ m.queue) (λ n i j r q e. e)
            (record m {
              jobs = put m.jobs id (finished job outcome now);
              active_fingerprints =
                  release_active_fingerprint m.active_fingerprints (finished job outcome now);
            })
            refl)
  ]
