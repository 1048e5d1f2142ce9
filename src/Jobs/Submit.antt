-- ===== src/Jobs/Submit.antt =====
-- Submit: what it reuses, what it refuses, and that it keeps the manager valid.
use log_integrity.Prelude.{
  ◌≡◌, refl, sym, ap, ◌∙◌, inl, inr, Bool, true, false, Option, none, some, [], ◌∷◌, ◌++◌, arith,
  Text, ◌==◌, text_eq, text_beq_iff, beq_refl, if◌then◌else◌, if_elim, Bool-cases, is_empty, length,
  ltb,
}
use log_integrity.Prelude.GoMap.{get, put, delete, get-put, get-put_self, get-put_ne}
use log_integrity.Prelude.Int.{pos_part}
use log_integrity.Prelude.Strings.{trim_space}
use log_integrity.Models.{Job, Time}
use log_integrity.Jobs.{
  Manager, TaskSpec, Submitted, reused, new_job, enqueue, reuse_active, find_active, reuse_keyed,
  find_keyed, submit_by_fingerprint, submit_by_key, submit, trimmed, put_named,
}
use log_integrity.Jobs.Valid.{IsValid, IsActive}

abbrev ValidAfter : Manager × Submitted → Type 0
ValidAfter r = IsValid r.0

module _ (spec : TaskSpec) (id : Text) (now : Time) where
  enqueue-IsValid :
      (m : Manager)
      → IsValid m
      → get m.jobs id ≡ none
      → (is_empty spec.fingerprint ≡ false → get m.active_fingerprints spec.fingerprint ≡ none)
      → IsValid (enqueue m spec id now).0
  unfolding enqueue
  enqueue-IsValid m h fresh free =
      if_elim ValidAfter m.queue_closed _ _ (λ closed. h)
        (λ op.
          if_elim ValidAfter (ltb (length m.queue) (pos_part m.opts.queue_size)) _ _
            (λ room. added m h fresh free) (λ full. h))
    where
      kept :
          (m : Manager)
          → IsValid m
          → (is_empty spec.fingerprint ≡ false → get m.active_fingerprints spec.fingerprint ≡ none)
          → (k : Text) (x : Job) → get m.jobs k ≡ some x
          → IsActive x
          → is_empty x.fingerprint ≡ false
          → get (put_named m.active_fingerprints spec.fingerprint id) x.fingerprint ≡ some k
      kept m h free k x p a n = ground (
        arith,
        get-put m.active_fingerprints spec.fingerprint id x.fingerprint,
        h.active_fp k x p a n,
        text_beq_iff spec.fingerprint x.fingerprint,
        ap (get m.active_fingerprints),
      )

      stored :
          (m : Manager)
          → IsValid m
          → get m.jobs id ≡ none
          → (fp k : Text) → get (put_named m.active_fingerprints spec.fingerprint id) fp ≡ some k
          → (j : Job) × (get (put m.jobs id (new_job spec id now)) k ≡ some j)
            × (j.fingerprint ≡ fp)
            × IsActive j
            × (is_empty fp ≡ false)
      stored m h fresh fp k p = elim (Bool-cases (is_empty spec.fingerprint)) [
        | inl no_fp ↦ old (ground arith)
        | inr with_fp ↦ elim (Bool-cases (spec.fingerprint == fp)) [
          | inl e ↦ (
            new_job spec id now,
            ground (
              arith,
              get-put m.active_fingerprints spec.fingerprint id fp,
              get-put m.jobs id (new_job spec id now) k,
              beq_refl id,
            ),
            (text_beq_iff spec.fingerprint fp).0 e,
            refl,
            ap is_empty (sym ((text_beq_iff spec.fingerprint fp).0 e)) ∙ with_fp,
          )
          | inr e ↦ old (ground (arith, get-put m.active_fingerprints spec.fingerprint id fp))
        ]
      ]
        where
          old :
              get m.active_fingerprints fp ≡ some k
              → (j : Job) × (get (put m.jobs id (new_job spec id now)) k ≡ some j)
                × (j.fingerprint ≡ fp)
                × IsActive j
                × (is_empty fp ≡ false)
          old q =
              let (x, g, r, a, n) = h.fp_active fp k q in
              (
                x,
                ground (arith, get-put m.jobs id (new_job spec id now) k, text_beq_iff id k),
                r,
                a,
                n,
              )

      added :
          (m : Manager)
          → IsValid m
          → get m.jobs id ≡ none
          → (is_empty spec.fingerprint ≡ false → get m.active_fingerprints spec.fingerprint ≡ none)
          → IsValid (record m {
            jobs = put m.jobs id (new_job spec id now);
            order = m.order ++ id ∷ [];
            idempotency_keys = put_named m.idempotency_keys spec.idempotency_key id;
            active_fingerprints = put_named m.active_fingerprints spec.fingerprint id;
            queue = m.queue ++ id ∷ [];
          })
      added m h fresh free = record {
        named = λ k x p.
            ground
              (arith, get-put m.jobs id (new_job spec id now) k, h.named k x, text_beq_iff id k);
        fp_active = λ fp k p. stored m h fresh fp k p;
        active_fp = λ k x p a n. elim (Bool-cases (id == k)) [
          | inl e ↦
              fresh_fp (x) (ground (arith, get-put m.jobs id (new_job spec id now) k))
                ((text_beq_iff id k).0 e) n
          | inr e ↦ kept m h free k x (sym (get-put_ne m.jobs id (new_job spec id now) k e) ∙ p) a n
        ];
      }
        where
          named_self :
              (b : Bool)
              → b ≡ false
              → get
                  (if b
                    then m.active_fingerprints
                    else put m.active_fingerprints spec.fingerprint id)
                  spec.fingerprint
                ≡ some id
          named_self true e = cc
          named_self false e = get-put_self m.active_fingerprints spec.fingerprint id

          fresh_fp :
              (x : Job) {k : Text}
              → x ≡ new_job spec id now
              → id ≡ k
              → is_empty x.fingerprint ≡ false
              → get (put_named m.active_fingerprints spec.fingerprint id) x.fingerprint ≡ some k
          fresh_fp x q e n =
              ap
                (λ (j : Job).
                  get (put_named m.active_fingerprints spec.fingerprint id) j.fingerprint)
                q
              ∙ named_self (is_empty spec.fingerprint)
                  (sym (ap (λ (j : Job). is_empty j.fingerprint) q) ∙ n)
              ∙ ap some e

  find_active-IsValid :
      (m : Manager) (o : Option Text)
      → get m.active_fingerprints spec.fingerprint ≡ o
      → IsValid m
      → get m.jobs id ≡ none
      → IsValid (find_active m spec id now o).0
  unfolding find_active
  find_active-IsValid m none q h fresh = enqueue-IsValid m h fresh (λ n. q)
  find_active-IsValid m (some job_id) q h fresh =
      let (j, g, r, a, n) = h.fp_active spec.fingerprint job_id q in
      rw (g, reuse_active) (rekey m h)
    where
      rekey :
          (m : Manager)
          → IsValid m
          → IsValid (record m {
            idempotency_keys = put_named m.idempotency_keys spec.idempotency_key job_id;
          })
      rekey m h = record { named = h.named; fp_active = h.fp_active; active_fp = h.active_fp }

  submit_by_fingerprint-IsValid :
      (m : Manager)
      → IsValid m
      → get m.jobs id ≡ none
      → IsValid (submit_by_fingerprint m spec id now).0
  unfolding submit_by_fingerprint
  submit_by_fingerprint-IsValid m h fresh =
      if_elim ValidAfter (is_empty spec.fingerprint) _ _
        (λ no_fp. enqueue-IsValid m h fresh (λ n. absurd (ground arith)))
        (λ with_fp. find_active-IsValid m (get m.active_fingerprints spec.fingerprint) refl h fresh)

  reuse_keyed-IsValid :
      (m : Manager) (o : Option Job)
      → IsValid m
      → get m.jobs id ≡ none
      → IsValid (reuse_keyed m spec id now o).0
  unfolding reuse_keyed
  reuse_keyed-IsValid m (some job) h fresh = h
  reuse_keyed-IsValid m none h fresh =
      submit_by_fingerprint-IsValid
        (record m { idempotency_keys = delete m.idempotency_keys spec.idempotency_key })
        (record { named = h.named; fp_active = h.fp_active; active_fp = h.active_fp }) fresh

  find_keyed-IsValid :
      (m : Manager) (o : Option Text)
      → IsValid m
      → get m.jobs id ≡ none
      → IsValid (find_keyed m spec id now o).0
  unfolding find_keyed
  find_keyed-IsValid m none h fresh = submit_by_fingerprint-IsValid m h fresh
  find_keyed-IsValid m (some job_id) h fresh = reuse_keyed-IsValid m (get m.jobs job_id) h fresh

  submit_by_key-IsValid :
      (m : Manager) → IsValid m → get m.jobs id ≡ none → IsValid (submit_by_key m spec id now).0
  unfolding submit_by_key
  submit_by_key-IsValid m h fresh =
      if_elim ValidAfter (is_empty spec.idempotency_key) _ _
        (λ no_key. submit_by_fingerprint-IsValid m h fresh)
        (λ with_key. find_keyed-IsValid m (get m.idempotency_keys spec.idempotency_key) h fresh)

-- Whatever is submitted, under a fresh identifier, the manager stays valid.
pub submit-IsValid :
    (m : Manager) (spec : TaskSpec) (id : Text) (now : Time)
    → IsValid m
    → get m.jobs id ≡ none
    → IsValid (submit m spec id now).0
unfolding submit
submit-IsValid m spec id now h fresh =
    if_elim ValidAfter m.shutting_down _ _ (λ down. h)
      (λ up. submit_by_key-IsValid (trimmed spec) id now m h fresh)

-- On a valid manager that is not shutting down, Submit without an idempotency key and with the
-- fingerprint of an active job returns that job, and leaves the jobs, their order and the queue
-- as they are.
pub submit_active_fingerprint :
    (m : Manager) (spec : TaskSpec) (id k : Text) (now : Time) (j : Job)
    → IsValid m
    → m.shutting_down ≡ false
    → trim_space spec.idempotency_key ≡ []
    → get m.jobs k ≡ some j
    → IsActive j
    → is_empty j.fingerprint ≡ false
    → trim_space spec.fingerprint ≡ j.fingerprint
    → ((submit m spec id now).1 ≡ reused j)
      × ((submit m spec id now).0.jobs ≡ m.jobs)
      × ((submit m spec id now).0.order ≡ m.order)
      × ((submit m spec id now).0.queue ≡ m.queue)
unfolding submit
submit_active_fingerprint m spec id k now j h up no_key g a n e =
    simp (up, no_key, e, n, h.active_fp k j g a n, find_active, g, reuse_active)
      (refl, refl, refl, refl)

-- If the manager is not shutting down, Submit with an idempotency key that leads to a stored job
-- returns that job and changes nothing.
pub submit_known_key :
    (m : Manager) (spec : TaskSpec) (id k : Text) (now : Time) (j : Job)
    → m.shutting_down ≡ false
    → is_empty (trim_space spec.idempotency_key) ≡ false
    → get m.idempotency_keys (trim_space spec.idempotency_key) ≡ some k
    → get m.jobs k ≡ some j
    → submit m spec id now ≡ (m, reused j)
unfolding submit
submit_known_key m spec id k now j up n q g = simp (up, n, q, find_keyed, g, reuse_keyed)
