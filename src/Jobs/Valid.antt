-- ===== src/Jobs/Valid.antt =====
-- The index of active fingerprints agrees with the job history, whatever the manager does.
use log_integrity.Prelude.{
  ◌≡◌, refl, sym, ap, ◌∙◌, inl, inr, true, false, none, some, List, arith, Text, ◌==◌, text_eq,
  text_beq_iff, Bool-cases, Option-cases, is_empty,
}
use log_integrity.Prelude.GoMap.{GoMap, get, put, get-put, get-delete, get-put_ne, get-delete_self}
use log_integrity.Models.{Job, running, Time}
use log_integrity.Jobs.Trim.{first_terminal-some, trim_history_induction}
use log_integrity.Jobs.{
  Manager, Options, new_manager, is_terminal_job_status, start_running, release_active_fingerprint,
  drop_job, trim_history, Outcome, success, failure, cancellation, finished, finish,
}

abbrev pub IsActive : Job → Type 0
IsActive j = is_terminal_job_status j.status ≡ false

-- A job is stored under its identifier, the index of active fingerprints holds active jobs of that
-- fingerprint, and every active job with a fingerprint is in it.
pub record IsValid (m : Manager) : Type 0 where
  pub named : (id : Text) (j : Job) → get m.jobs id ≡ some j → j.id ≡ id
  pub fp_active :
      (fp id : Text)
      → get m.active_fingerprints fp ≡ some id
      → (j : Job) × (get m.jobs id ≡ some j)
        × (j.fingerprint ≡ fp)
        × IsActive j
        × (is_empty fp ≡ false)
  pub active_fp :
      (id : Text) (j : Job)
      → get m.jobs id ≡ some j
      → IsActive j
      → is_empty j.fingerprint ≡ false
      → get m.active_fingerprints j.fingerprint ≡ some id

pub new_manager-IsValid : (o : Options) → IsValid (new_manager o)
unfolding new_manager get
new_manager-IsValid o = record {
  named = λ id j h. cc;
  fp_active = λ fp id h. absurd (cc);
  active_fp = λ id j h. cc;
}

release-get :
    (fps : GoMap Text Text) (j : Job) (fp k : Text)
    → get (release_active_fingerprint fps j) fp ≡ some k
    → get fps fp ≡ some k
release-get fps j fp k h = ground (arith, get-delete fps j.fingerprint fp)

release-ne :
    (fps : GoMap Text Text) (j : Job) (k : Text)
    → is_empty j.fingerprint ≡ false
    → get (release_active_fingerprint fps j) j.fingerprint ≡ some k
    → k ≡ j.id
    → ⊥
release-ne fps j k n h e = ground (arith, get-delete_self fps j.fingerprint, text_beq_iff k j.id)

get-release :
    (fps : GoMap Text Text) (j : Job) (fp k : Text)
    → get fps fp ≡ some k
    → (k == j.id) ≡ false
    → get (release_active_fingerprint fps j) fp ≡ some k
get-release fps j fp k h n =
    ground (arith, get-delete fps j.fingerprint fp, text_beq_iff j.fingerprint fp)

-- In a valid manager two active jobs with one fingerprint, which is not empty, are one job.
pub active_fingerprint_unique :
    (m : Manager) (a b : Text) (i j : Job)
    → IsValid m
    → get m.jobs a ≡ some i
    → get m.jobs b ≡ some j
    → IsActive i
    → IsActive j
    → is_empty i.fingerprint ≡ false
    → i.fingerprint ≡ j.fingerprint
    → a ≡ b
active_fingerprint_unique m a b i j h p q ai aj n e = same (
    sym (h.active_fp a i p ai n)
    ∙ ap (get m.active_fingerprints) e
    ∙ h.active_fp b j q aj (ap is_empty (sym e) ∙ n))
  where
    same : {x y : Text} → some x ≡ some y → x ≡ y
    same r = cc

module _ (m : Manager) (id : Text) (job : Job) (h : IsValid m)
    (here : get m.jobs id ≡ some job) where
  -- A job may change but for its identifier, its fingerprint and its being active.
  replace-IsValid :
      (job' : Job)
      → IsActive job
      → job'.id ≡ job.id
      → job'.fingerprint ≡ job.fingerprint
      → IsActive job'
      → IsValid (record m { jobs = put m.jobs id job' })
  replace-IsValid job' a qi qf a' = record {
    named = λ k x p. elim (Bool-cases (id == k)) [
      | inl e ↦ ground (arith, get-put m.jobs id job' k, h.named id job here, text_beq_iff id k)
      | inr e ↦ ground (arith, get-put m.jobs id job' k, h.named k x)
    ];
    fp_active = λ fp k p.
        let (x, q, r, t, n) = h.fp_active fp k p in
        elim (Bool-cases (id == k)) [
          | inl e ↦ (
            job',
            ground (arith, get-put m.jobs id job' k),
            qf ∙ ground (arith, text_beq_iff id k),
            a',
            n,
          )
          | inr e ↦ (x, get-put_ne m.jobs id job' k e ∙ q, r, t, n)
        ];
    active_fp = λ k x p t n. elim (Bool-cases (id == k)) [
      | inl e ↦
          ground (arith, get-put m.jobs id job' k, text_beq_iff id k, h.active_fp id job here a)
      | inr e ↦ ground (arith, get-put m.jobs id job' k, h.active_fp k x)
    ];
  }

  pub start_running-IsValid : (now : Time) → IsActive job → IsValid (start_running m id now)
  unfolding start_running
  start_running-IsValid now a =
      rw (here, start_running)
        (replace-IsValid
          (record job { status = running; started_at = some now; finished_at = none }) a refl refl
          refl)

  -- A job that ends leaves the index.
  ended-IsValid :
      (job' : Job)
      → job'.id ≡ job.id
      → job'.fingerprint ≡ job.fingerprint
      → is_terminal_job_status job'.status ≡ true
      → IsValid (record m {
        jobs = put m.jobs id job';
        active_fingerprints = release_active_fingerprint m.active_fingerprints job';
      })
  ended-IsValid job' qi qf t' = record {
    named = λ k x p. elim (Bool-cases (id == k)) [
      | inl e ↦ ground (arith, get-put m.jobs id job' k, h.named id job here, text_beq_iff id k)
      | inr e ↦ ground (arith, get-put m.jobs id job' k, h.named k x)
    ];
    fp_active = λ fp k p.
        let (x, q, r, t, n) = h.fp_active fp k (release-get m.active_fingerprints job' fp k p) in
        elim (Bool-cases (id == k)) [
          | inl e ↦ absurd (gone fp k x p q r n ((text_beq_iff id k).0 e))
          | inr e ↦ (x, get-put_ne m.jobs id job' k e ∙ q, r, t, n)
        ];
    active_fp = λ k x p t n. elim (Bool-cases (id == k)) [
      | inl e ↦ absurd (ground (arith, get-put m.jobs id job' k))
      | inr e ↦
          get-release m.active_fingerprints job' x.fingerprint k
            (h.active_fp k x (sym (get-put_ne m.jobs id job' k e) ∙ p) t n)
            (ground (arith, h.named id job here, text_beq_iff id k, text_beq_iff k job'.id))
    ];
  }
    where
      gone :
          (fp k : Text) (x : Job)
          → get (release_active_fingerprint m.active_fingerprints job') fp ≡ some k
          → get m.jobs k ≡ some x
          → x.fingerprint ≡ fp
          → is_empty fp ≡ false
          → id ≡ k
          → ⊥
      gone fp k x p q r n e =
          release-ne m.active_fingerprints job' k (ap is_empty f ∙ n)
            (ap (get (release_active_fingerprint m.active_fingerprints job')) f ∙ p)
            (sym e ∙ sym (h.named id job here) ∙ sym qi)
        where
          f : job'.fingerprint ≡ fp
          f = qf ∙ ground (arith, ap (get m.jobs) e)

pub finished-fields :
    (job : Job) (outcome : Outcome) (now : Time)
    → ((finished job outcome now).id ≡ job.id)
      × ((finished job outcome now).fingerprint ≡ job.fingerprint)
      × (is_terminal_job_status (finished job outcome now).status ≡ true)
finished-fields job (success payload) now = (refl, refl, refl)
finished-fields job (failure message) now = (refl, refl, refl)
finished-fields job cancellation now = (refl, refl, refl)

drop_job-IsValid :
    (m : Manager) (id : Text) (job : Job) (rest : List Text)
    → get m.jobs id ≡ some job
    → is_terminal_job_status job.status ≡ true
    → IsValid m
    → IsValid (drop_job m (id, job, rest))
unfolding drop_job
drop_job-IsValid m id job rest g t h = record {
  named = λ k x p. ground (arith, get-delete m.jobs id k, h.named k x);
  fp_active = λ fp k p.
      let (x, q, r, a, n) = h.fp_active fp k p in
      (x, ground (arith, get-delete m.jobs id k, text_beq_iff id k), r, a, n);
  active_fp = λ k x p a n. ground (arith, get-delete m.jobs id k, h.active_fp k x);
}

pub trim_history-IsValid : (m : Manager) → IsValid m → IsValid (trim_history m)
trim_history-IsValid m h =
    trim_history_induction IsValid
      (λ n id job rest q v.
        let found = first_terminal-some n.jobs n.order id job rest q in
        drop_job-IsValid n id job rest found.0 found.1 v)
      m h

-- A job that ends, in whichever way, leaves the manager valid.
pub finish-IsValid :
    (m : Manager) (id : Text) (outcome : Outcome) (now : Time)
    → IsValid m
    → IsValid (finish m id outcome now)
unfolding finish
finish-IsValid m id outcome now h = elim (Option-cases (get m.jobs id)) [
  | inl gone ↦ rw (gone, finish) h
  | inr (job, here) ↦
      let (qi, qf, t) = finished-fields job outcome now in
      rw (here, finish)
        (trim_history-IsValid _ (ended-IsValid m id job h here (finished job outcome now) qi qf t))
]
