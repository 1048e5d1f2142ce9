-- ===== src/Jobs/Sound.antt =====
-- Every step keeps the system sound, so every reachable system is.
use mathlib.Core.Path.{subst}
use mathlib.Core.List.{append_assoc}
use log_integrity.Prelude.{
  ◌≡◌, ◌≢◌, refl, sym, ap, ◌∙◌, inl, inr, false, none, some, List, [], ◌∷◌, ◌++◌, In, In-append,
  Distinct, Text, ◌==◌, text_eq, if_elim, beq_ne, is_empty,
}
use log_integrity.Prelude.GoMap.{GoMap, get, put, get-put_self, get-put_ne}
use log_integrity.Models.{Job, JobStatus, queued, running, Time}
use log_integrity.Jobs.{
  Manager, Options, TaskSpec, Outcome, cancellation, new_manager, new_job, start, shutdown,
  shutdown_done, submit, trimmed, start_running, finish, is_terminal_job_status,
}
use log_integrity.Jobs.Valid.{
  IsActive, active_fingerprint_unique, new_manager-IsValid, start_running-IsValid, finish-IsValid,
}
use log_integrity.Jobs.Submit.{submit-IsValid}
use log_integrity.Jobs.Effects.{submit-Queues, get-finish, queue-finish}
use log_integrity.Jobs.System.{
  System, Step, submits, receives, drops, starts, ends, begins, drained, stops, Reach, here, next,
  waiting, IsSound,
}

In-middle :
    (a : Text) (xs : List Text) (x : Text) (ys : List Text) → In a (xs ++ ys) → In a (xs ++ x ∷ ys)
In-middle a [] x ys i = inr i
In-middle a (z ∷ xs) x ys (inl q) = inl q
In-middle a (z ∷ xs) x ys (inr i) = inr (In-middle a xs x ys i)

pub In-here : (xs : List Text) (x : Text) (ys : List Text) → In x (xs ++ x ∷ ys)
In-here [] x ys = inl refl
In-here (z ∷ xs) x ys = inr (In-here xs x ys)

Distinct-middle :
    (xs : List Text) (x : Text) (ys : List Text)
    → Distinct (xs ++ x ∷ ys)
    → (¬ In x (xs ++ ys)) × Distinct (xs ++ ys)
Distinct-middle [] x ys d = d
Distinct-middle (z ∷ xs) x ys d =
    let (n, e) = Distinct-middle xs x ys d.1 in
    (
      λ i. elim i [
        | inl q ↦ d.0 (subst (λ t. In t (xs ++ x ∷ ys)) q (In-here xs x ys))
        | inr j ↦ n j
      ],
      (λ i. d.0 (In-middle z xs x ys i), e),
    )

Distinct-snoc : (xs : List Text) (x : Text) → Distinct xs → ¬ In x xs → Distinct (xs ++ x ∷ [])
Distinct-snoc [] x d n = (λ i. elim i [ ], tt)
Distinct-snoc (z ∷ xs) x d n = (
  λ i. elim (In-append z xs (x ∷ []) i) [
    | inl j ↦ d.0 j
    | inr j ↦ elim j [ inl q ↦ n (inl (sym q)) | inr k ↦ elim k [ ] ]
  ],
  Distinct-snoc xs x d.1 (λ i. n (inr i)),
)

some_inj {ℓ} : {A : Type ℓ} {a b : A} → some a ≡ some b → a ≡ b
some_inj p = cc

submits-IsSound :
    (s : System) (spec : TaskSpec) (id : Text) (now : Time)
    → get s.manager.jobs id ≡ none
    → IsSound s
    → IsSound (record s { manager = (submit s.manager spec id now).0 })
submits-IsSound s spec id now fresh h = elim (submit-Queues id now s.manager spec) [
  | inl (jobs, queue) ↦ record {
    valid = submit-IsValid s.manager spec id now h.valid fresh;
    waits = λ k i.
        let (j, g, t) = h.waits k (subst (λ q. In k (s.taken ++ q)) queue i) in
        (j, ap (λ m. get m k) jobs ∙ g, t);
    runs = λ k i. let (j, g, t) = h.runs k i in (j, ap (λ m. get m k) jobs ∙ g, t);
    waits_once = subst (λ q. Distinct (s.taken ++ q)) (sym queue) h.waits_once;
    runs_once = h.runs_once;
  }
  | inr (jobs, queue) ↦ record {
    valid = submit-IsValid s.manager spec id now h.valid fresh;
    waits = λ k i. elim (In-append k (waiting s) (id ∷ []) (subst (In k) (line queue) i)) [
      | inl j ↦ old (new_job (trimmed spec) id now) jobs k queued (h.waits k j)
      | inr j ↦ elim j [
        | inl q ↦ (
          new_job (trimmed spec) id now,
          ap (λ m. get m k) jobs
              ∙ ap (get (put s.manager.jobs id (new_job (trimmed spec) id now))) q
              ∙ get-put_self s.manager.jobs id (new_job (trimmed spec) id now),
          refl,
        )
        | inr l ↦ elim l [ ]
      ]
    ];
    runs = λ k i. old (new_job (trimmed spec) id now) jobs k running (h.runs k i);
    waits_once =
        subst Distinct (sym (line queue)) (Distinct-snoc (waiting s) id h.waits_once absent);
    runs_once = h.runs_once;
  }
]
  where
    line : {q : List Text} → q ≡ s.manager.queue ++ id ∷ [] → s.taken ++ q ≡ waiting s ++ id ∷ []
    line e = ap (λ t. s.taken ++ t) e ∙ sym (append_assoc s.taken s.manager.queue (id ∷ []))

    absent : ¬ In id (waiting s)
    absent i = let (j, g, t) = h.waits id i in cc (sym fresh ∙ g)

    old :
        {jobs' : GoMap Text Job} (new : Job)
        → jobs' ≡ put s.manager.jobs id new
        → (k : Text) (status : JobStatus)
        → (j : Job) × (get s.manager.jobs k ≡ some j) × (j.status ≡ status)
        → (j : Job) × (get jobs' k ≡ some j) × (j.status ≡ status)
    old new e k status (j, g, t) = (
      j,
      ap (λ m. get m k) e
          ∙ get-put_ne s.manager.jobs id new k
              (beq_ne id k (λ q. absurd (cc (ap (get s.manager.jobs) q ∙ g))))
          ∙ g,
      t,
    )

receives-IsSound :
    (s : System) (id : Text) (rest : List Text)
    → s.manager.queue ≡ id ∷ rest
    → IsSound s
    → IsSound (record s { manager = record s.manager { queue = rest }; taken = s.taken ++ id ∷ [] })
receives-IsSound s id rest q h = record {
  valid = record {
    named = h.valid.named;
    fp_active = h.valid.fp_active;
    active_fp = h.valid.active_fp;
  };
  waits = λ k i. h.waits k (subst (In k) (sym line) i);
  runs = h.runs;
  waits_once = subst Distinct line h.waits_once;
  runs_once = h.runs_once;
}
  where
    line : waiting s ≡ (s.taken ++ id ∷ []) ++ rest
    line = ap (λ t. s.taken ++ t) q ∙ sym (append_assoc s.taken (id ∷ []) rest)

-- A stored job in a state, after the end of another job.
kept :
    (m : Manager) (id : Text) (outcome : Outcome) (now : Time) (k : Text) (status : JobStatus)
    → is_terminal_job_status status ≡ false
    → (id == k) ≡ false
    → (j : Job) × (get m.jobs k ≡ some j) × (j.status ≡ status)
    → (j : Job) × (get (finish m id outcome now).jobs k ≡ some j) × (j.status ≡ status)
kept m id outcome now k status a n (j, g, t) =
    (j, (get-finish m id outcome now k n).1 j g (ap is_terminal_job_status t ∙ a), t)

-- Jobs in different states have different identifiers.
differs :
    (m : GoMap Text Job) (id k : Text)
    → (i : Job) × (get m id ≡ some i) × (i.status ≡ queued)
    → (j : Job) × (get m k ≡ some j) × (j.status ≡ running)
    → id ≢ k
differs m id k (i, g, a) (j, h, b) e =
    absurd (clash (sym a ∙ ap (λ (x : Job). x.status) (some_inj (sym g ∙ ap (get m) e ∙ h)) ∙ b))
  where
    clash : ◌≡◌ {A = JobStatus} queued running → ⊥
    clash p = cc

module _ (s : System) (before : List Text) (id : Text) (after : List Text) (now : Time)
    (h : IsSound s) where
  module _ (q : s.taken ≡ before ++ id ∷ after) where
    line : waiting s ≡ before ++ id ∷ (after ++ s.manager.queue)
    line = ap (λ t. t ++ s.manager.queue) q ∙ append_assoc before (id ∷ after) s.manager.queue

    others : (k : Text) → In k (before ++ (after ++ s.manager.queue)) → (id == k) ≡ false
    others k i = beq_ne id k (λ e.
        (Distinct-middle before id (after ++ s.manager.queue) (subst Distinct line h.waits_once)).0
          (subst (λ t. In t (before ++ (after ++ s.manager.queue))) (sym e) i))

    old : (k : Text) → In k (before ++ (after ++ s.manager.queue)) → In k (waiting s)
    old k i = subst (In k) (sym line) (In-middle k before id (after ++ s.manager.queue) i)

    itself : (j : Job) × (get s.manager.jobs id ≡ some j) × (j.status ≡ queued)
    itself = h.waits id (subst (In id) (sym line) (In-here before id (after ++ s.manager.queue)))

    regroup : (before ++ after) ++ s.manager.queue ≡ before ++ (after ++ s.manager.queue)
    regroup = append_assoc before after s.manager.queue

    drops-IsSound :
        IsSound
          (record s { manager = finish s.manager id cancellation now; taken = before ++ after })
    drops-IsSound = record {
      valid = finish-IsValid s.manager id cancellation now h.valid;
      waits = λ k i.
          let j = subst (In k) same i in
          kept s.manager id cancellation now k queued refl (others k j) (h.waits k (old k j));
      runs = λ k i.
          kept s.manager id cancellation now k running refl
            (beq_ne id k (differs s.manager.jobs id k itself (h.runs k i))) (h.runs k i);
      waits_once =
          subst Distinct (sym same)
            (Distinct-middle before id (after ++ s.manager.queue)
              (subst Distinct line h.waits_once)).1;
      runs_once = h.runs_once;
    }
      where
        same :
            (before ++ after) ++ (finish s.manager id cancellation now).queue
            ≡ before ++ (after ++ s.manager.queue)
        same =
            ap (λ t. (before ++ after) ++ t) (queue-finish s.manager id cancellation now) ∙ regroup

    starts-IsSound : IsSound (record s {
      manager = start_running s.manager id now;
      taken = before ++ after;
      busy = id ∷ s.busy;
    })
    unfolding start_running
    starts-IsSound =
        let (job, g, a) = itself in
        rw (g, start_running)
          (record {
            valid =
                rw (g, start_running) at
                  (start_running-IsValid s.manager id job h.valid g now
                    (ap is_terminal_job_status a));
            waits = λ k i.
                let j = subst (In k) regroup i in
                still job k queued (others k j) (h.waits k (old k j));
            runs = λ k i. elim i [
              | inl e ↦ (
                record job { status = running; started_at = some now; finished_at = none },
                ap
                      (get (
                        put s.manager.jobs id (record job {
                          status = running;
                          started_at = some now;
                          finished_at = none;
                        })))
                      e
                    ∙ get-put_self s.manager.jobs id (record job {
                      status = running;
                      started_at = some now;
                      finished_at = none;
                    }),
                refl,
              )
              | inr j ↦
                  still job k running
                    (beq_ne id k (differs s.manager.jobs id k itself (h.runs k j))) (h.runs k j)
            ];
            waits_once =
                subst Distinct (sym regroup)
                  (Distinct-middle before id (after ++ s.manager.queue)
                    (subst Distinct line h.waits_once)).1;
            runs_once = (λ i. differs s.manager.jobs id id itself (h.runs id i) refl, h.runs_once);
          })
      where
        still :
            (job : Job) (k : Text) (status : JobStatus)
            → (id == k) ≡ false
            → (j : Job) × (get s.manager.jobs k ≡ some j) × (j.status ≡ status)
            → (j : Job) × (get
                  (put s.manager.jobs id
                    (record job { status = running; started_at = some now; finished_at = none }))
                  k
                ≡ some j)
              × (j.status ≡ status)
        still job k status n (j, g, t) = (j, get-put_ne s.manager.jobs id _ k n ∙ g, t)

  ends-IsSound :
      (outcome : Outcome)
      → s.busy ≡ before ++ id ∷ after
      → IsSound (record s { manager = finish s.manager id outcome now; busy = before ++ after })
  ends-IsSound outcome q = record {
    valid = finish-IsValid s.manager id outcome now h.valid;
    waits = λ k i.
        let j =
          h.waits k (subst (λ t. In k (s.taken ++ t)) (queue-finish s.manager id outcome now) i) in
        kept s.manager id outcome now k queued refl
          (beq_ne id k (λ e. differs s.manager.jobs k id j itself' (sym e))) j;
    runs = λ k i.
        kept s.manager id outcome now k running refl
          (beq_ne id k (λ e. apart.0 (subst (λ t. In t (before ++ after)) (sym e) i)))
          (h.runs k (subst (In k) (sym q) (In-middle k before id after i)));
    waits_once =
        subst (λ t. Distinct (s.taken ++ t)) (sym (queue-finish s.manager id outcome now))
          h.waits_once;
    runs_once = apart.1;
  }
    where
      apart : (¬ In id (before ++ after)) × Distinct (before ++ after)
      apart = Distinct-middle before id after (subst Distinct q h.runs_once)

      itself' : (j : Job) × (get s.manager.jobs id ≡ some j) × (j.status ≡ running)
      itself' = h.runs id (subst (In id) (sym q) (In-here before id after))

same_jobs-IsSound :
    (s : System) (m : Manager)
    → m.jobs ≡ s.manager.jobs
    → m.queue ≡ s.manager.queue
    → m.active_fingerprints ≡ s.manager.active_fingerprints
    → IsSound s
    → IsSound (record s { manager = m })
same_jobs-IsSound s m qj qq qf h = record {
  valid = record {
    named = λ id j p. h.valid.named id j (sym (ap (λ t. get t id) qj) ∙ p);
    fp_active = λ fp id p.
        let (x, g, r, a, n) = h.valid.fp_active fp id (sym (ap (λ t. get t fp) qf) ∙ p) in
        (x, ap (λ t. get t id) qj ∙ g, r, a, n);
    active_fp = λ id j p a n.
        ap (λ t. get t j.fingerprint) qf
        ∙ h.valid.active_fp id j (sym (ap (λ t. get t id) qj) ∙ p) a n;
  };
  waits = λ k i.
      let (j, g, t) = h.waits k (subst (λ t. In k (s.taken ++ t)) qq i) in
      (j, ap (λ t. get t k) qj ∙ g, t);
  runs = λ k i. let (j, g, t) = h.runs k i in (j, ap (λ t. get t k) qj ∙ g, t);
  waits_once = subst (λ t. Distinct (s.taken ++ t)) (sym qq) h.waits_once;
  runs_once = h.runs_once;
}

abbrev pub Same : Manager → Manager → Type 0
Same m n = (n.jobs ≡ m.jobs) × (n.queue ≡ m.queue) × (n.active_fingerprints ≡ m.active_fingerprints)

pub start-Same : (m : Manager) → Same m (start m)
unfolding start
start-Same m =
    if_elim (Same m) m.start_called _ _ (λ again. (refl, refl, refl)) (λ once. (refl, refl, refl))

pub shutdown-Same : (m : Manager) → Same m (shutdown m)
unfolding shutdown
shutdown-Same m =
    if_elim (Same m) m.shutdown_called _ _ (λ again. (refl, refl, refl))
      (λ once. (refl, refl, refl))

-- Every critical section and every receive keeps a system sound.
pub Step-IsSound : {s t : System} → Step s t → IsSound s → IsSound t
Step-IsSound (submits s spec id now fresh) h = submits-IsSound s spec id now fresh h
Step-IsSound (receives s id rest q) h = receives-IsSound s id rest q h
Step-IsSound (drops s before id after now q) h = drops-IsSound s before id after now h q
Step-IsSound (starts s before id after now q) h = starts-IsSound s before id after now h q
Step-IsSound (ends s before id after outcome now q) h =
    ends-IsSound s before id after now h outcome q
Step-IsSound (begins s) h =
    same_jobs-IsSound s (start s.manager) (start-Same s.manager).0 (start-Same s.manager).1
      (start-Same s.manager).2 h
Step-IsSound (drained s none_taken none_busy) h =
    same_jobs-IsSound s (shutdown_done s.manager) refl refl refl h
Step-IsSound (stops s) h =
    same_jobs-IsSound s (shutdown s.manager) (shutdown-Same s.manager).0 (shutdown-Same s.manager).1
      (shutdown-Same s.manager).2 h

IsSound-new : (o : Options) → IsSound (record { manager = new_manager o; taken = []; busy = [] })
unfolding new_manager
IsSound-new o = record {
  valid = new_manager-IsValid o;
  waits = λ k i. elim i [ ];
  runs = λ k i. elim i [ ];
  waits_once = tt;
  runs_once = tt;
}

-- In every state that is reached from a new manager, whatever callers and workers do in whatever
-- order, if each drawn job identifier is new, queued work is of queued jobs, running work of
-- running jobs, each once, and the index of active fingerprints holds exactly the active jobs
-- that have one.
pub Reach-IsSound :
    (o : Options) {s : System}
    → Reach (record { manager = new_manager o; taken = []; busy = [] }) s
    → IsSound s
Reach-IsSound o here = IsSound-new o
Reach-IsSound o (next r st) = Step-IsSound st (Reach-IsSound o r)

-- In every state that is reached from a new manager, if each drawn job identifier is new, two
-- active jobs with one fingerprint, which is not empty, are one job.
pub Reach-active_unique :
    (o : Options) {s : System} (a b : Text) (i j : Job)
    → Reach (record { manager = new_manager o; taken = []; busy = [] }) s
    → get s.manager.jobs a ≡ some i
    → get s.manager.jobs b ≡ some j
    → IsActive i
    → IsActive j
    → is_empty i.fingerprint ≡ false
    → i.fingerprint ≡ j.fingerprint
    → a ≡ b
Reach-active_unique o {s = s} a b i j r =
    active_fingerprint_unique s.manager a b i j (Reach-IsSound o r).valid
