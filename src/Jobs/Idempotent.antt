-- ===== src/Jobs/Idempotent.antt =====
-- Submit twice with one idempotency key.
use log_integrity.Prelude.{
  ◌≡◌, refl, ap, ◌∙◌, true, false, Option, none, some, arith, Text, text_eq, if◌then◌else◌, if_elim,
  is_empty, length, ltb,
}
use log_integrity.Prelude.GoMap.{get, put, delete, get-put_self}
use log_integrity.Prelude.Int.{pos_part}
use log_integrity.Prelude.Strings.{trim_space}
use log_integrity.Models.{Job, Time}
use log_integrity.Jobs.{
  Manager, TaskSpec, Submitted, accepted, reused, queue_full, shutting_down, panicked, new_job,
  enqueue, reuse_active, find_active, reuse_keyed, find_keyed, submit_by_fingerprint, submit_by_key,
  submit, trimmed, put_named,
}
use log_integrity.Jobs.Submit.{submit_known_key}

-- The job that Submit returns, unless it returns an error.
abbrev pub job_of : Submitted → Option Job
job_of (accepted job) = some job
job_of (reused job) = some job
job_of queue_full = none
job_of shutting_down = none
job_of panicked = none

module _ (spec : TaskSpec) (id : Text) (now : Time)
    (keyed : is_empty spec.idempotency_key ≡ false) where
  -- If a job is returned, then the key leads to it.
  abbrev Leads : Manager × Submitted → Type 0
  Leads r =
      (job : Job)
      → job_of r.1 ≡ some job
      → (r.0.shutting_down ≡ false)
        × (k : Text) × (get r.0.idempotency_keys spec.idempotency_key ≡ some k)
        × (get r.0.jobs k ≡ some job)

  abbrev Lively : Manager → Type 0
  Lively m = m.shutting_down ≡ false

  some_inj : {a b : Job} → some a ≡ some b → a ≡ b
  some_inj p = cc

  named_key :
      (m : Manager) (k : Text)
      → get (put_named m.idempotency_keys spec.idempotency_key k) spec.idempotency_key ≡ some k
  named_key m k =
      ap
        (λ b.
          get (if b then m.idempotency_keys else put m.idempotency_keys spec.idempotency_key k)
            spec.idempotency_key)
        keyed
      ∙ get-put_self m.idempotency_keys spec.idempotency_key k

  clash : {job : Job} → none ≡ some job → ⊥
  clash p = cc

  enqueue-Leads : (m : Manager) → Lively m → Leads (enqueue m spec id now)
  unfolding enqueue
  enqueue-Leads m up =
      if_elim Leads m.queue_closed _ _ (λ closed job q. absurd (clash q))
        (λ op.
          if_elim Leads (ltb (length m.queue) (pos_part m.opts.queue_size)) _ _
            (λ room job q.
              (up, id, named_key m id, get-put_self m.jobs id (new_job spec id now) ∙ q))
            (λ full job q. absurd (clash q)))

  find_active-Leads :
      (m : Manager) (o : Option Text) → Lively m → Leads (find_active m spec id now o)
  unfolding find_active reuse_active
  find_active-Leads m none up = enqueue-Leads m up
  find_active-Leads m (some k) up = pick (get m.jobs k) refl
    where
      pick : (o : Option Job) → get m.jobs k ≡ o → Leads (reuse_active m spec id now k o)
      pick none e =
          enqueue-Leads
            (record m { active_fingerprints = delete m.active_fingerprints spec.fingerprint }) up
      pick (some x) e = λ job q. (up, k, named_key m k, e ∙ q)

  submit_by_fingerprint-Leads :
      (m : Manager) → Lively m → Leads (submit_by_fingerprint m spec id now)
  unfolding submit_by_fingerprint
  submit_by_fingerprint-Leads m up =
      if_elim Leads (is_empty spec.fingerprint) _ _ (λ no_fp. enqueue-Leads m up)
        (λ with_fp. find_active-Leads m (get m.active_fingerprints spec.fingerprint) up)

  find_keyed-Leads :
      (m : Manager) (o : Option Text)
      → get m.idempotency_keys spec.idempotency_key ≡ o
      → Lively m
      → Leads (find_keyed m spec id now o)
  unfolding find_keyed reuse_keyed
  find_keyed-Leads m none h up = submit_by_fingerprint-Leads m up
  find_keyed-Leads m (some k) h up = pick (get m.jobs k) refl
    where
      pick : (o : Option Job) → get m.jobs k ≡ o → Leads (reuse_keyed m spec id now o)
      pick none e =
          submit_by_fingerprint-Leads
            (record m { idempotency_keys = delete m.idempotency_keys spec.idempotency_key }) up
      pick (some x) e = λ job q. (up, k, h, e ∙ q)

  submit_by_key-Leads : (m : Manager) → Lively m → Leads (submit_by_key m spec id now)
  unfolding submit_by_key
  submit_by_key-Leads m up =
      if_elim Leads (is_empty spec.idempotency_key) _ _ (λ e. absurd (both e))
        (λ e. find_keyed-Leads m (get m.idempotency_keys spec.idempotency_key) refl up)
    where
      both : is_empty spec.idempotency_key ≡ true → ⊥
      both e = ground (arith, keyed)

-- If Submit with an idempotency key returns a job, new or reused by its key or its fingerprint,
-- then a second Submit with the same key up to white space around it, whatever else is submitted,
-- returns that job and changes nothing.
pub submit_twice :
    (m : Manager) (spec again : TaskSpec) (id other : Text) (now later : Time) (job : Job)
    → is_empty (trim_space spec.idempotency_key) ≡ false
    → trim_space again.idempotency_key ≡ trim_space spec.idempotency_key
    → job_of (submit m spec id now).1 ≡ some job
    → submit (submit m spec id now).0 again other later ≡ ((submit m spec id now).0, reused job)
unfolding submit
submit_twice m spec again id other now later job keyed same returned =
    let (up, k, leads, stored) = first job returned in
    submit_known_key (submit m spec id now).0 again other k later job up (ap is_empty same ∙ keyed)
      (ap (get (submit m spec id now).0.idempotency_keys) same ∙ leads) stored
  where
    first : Leads (trimmed spec) id now keyed (submit m spec id now)
    first =
        if_elim (Leads (trimmed spec) id now keyed) m.shutting_down _ _
          (λ down job q. absurd (clash (trimmed spec) id now keyed q))
          (λ up. submit_by_key-Leads (trimmed spec) id now keyed m up)
