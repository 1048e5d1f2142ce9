-- ===== src/Jobs/History.antt =====
-- A finished job never changes, and the life cycle of the manager.
use log_integrity.Prelude.{
  ◌≡◌, refl, sym, ap, ◌∙◌, ◌⊎◌, inl, inr, true, false, Option, none, some, List, [], ◌∷◌, ◌++◌, In,
  In-append_left, Text, ◌==◌, text_eq, beq_ne, Option-cases,
}
use mathlib.Core.Path.{subst}
use log_integrity.Prelude.GoMap.{GoMap, get, get-put_ne}
use log_integrity.Prelude.Strings.{trim_space}
use log_integrity.Models.{Job, JobStatus, queued, running, Time}
use log_integrity.Jobs.{
  Manager, TaskSpec, panicked, Outcome, cancellation, new_job, start, shutdown, started, submit,
  trimmed, start_running, finish, is_terminal_job_status,
}
use log_integrity.Jobs.System.{
  System, Step, submits, receives, drops, starts, ends, begins, drained, stops, waiting, IsSound,
}
use log_integrity.Jobs.Sound.{In-here, start-Same, shutdown-Same}
use log_integrity.Jobs.Effects.{submit-Queues, get-finish}

taken_waits :
    (s : System) (before : List Text) (id : Text) (after : List Text)
    → s.taken ≡ before ++ id ∷ after
    → In id (waiting s)
taken_waits s before id after q =
    In-append_left id s.taken s.manager.queue (subst (In id) (sym q) (In-here before id after))

-- Under the identifier the old record is kept, or nothing is left.
abbrev pub Keeps : Job → Option Job → Type 0
Keeps j o = (o ≡ none) ⊎ (o ≡ some j)

unfinished_ne :
    (m : GoMap Text Job) (id k : Text) (j : Job) (status : JobStatus)
    → (i : Job) × (get m id ≡ some i) × (i.status ≡ status)
    → is_terminal_job_status status ≡ false
    → get m k ≡ some j
    → is_terminal_job_status j.status ≡ true
    → (id == k) ≡ false
unfinished_ne m id k j status (i, g, q) a h t = beq_ne id k (λ e. absurd (
    clash (
      sym a
      ∙ ap is_terminal_job_status (sym q)
      ∙ ap (λ (x : Job). is_terminal_job_status x.status) (some_inj (sym g ∙ ap (get m) e ∙ h))
      ∙ t)))
  where
    clash : false ≡ true → ⊥
    clash p = cc

    some_inj : {x y : Job} → some x ≡ some y → x ≡ y
    some_inj p = cc

finish-Keeps :
    (m : Manager) (id : Text) (outcome : Outcome) (now : Time) (k : Text) (j : Job)
    → (id == k) ≡ false
    → get m.jobs k ≡ some j
    → Keeps j (get (finish m id outcome now).jobs k)
finish-Keeps m id outcome now k j n h = elim (Option-cases (get (finish m id outcome now).jobs k)) [
  | inl gone ↦ inl gone
  | inr (x, g) ↦ inr (g ∙ sym ((get-finish m id outcome now k n).0 x g) ∙ h)
]

-- In a sound system a step leaves a finished job exactly as it is, or removes it from the
-- history.
pub Step-finished :
    {s t : System} (k : Text) (j : Job)
    → Step s t
    → IsSound s
    → get s.manager.jobs k ≡ some j
    → is_terminal_job_status j.status ≡ true
    → Keeps j (get t.manager.jobs k)
unfolding start_running
Step-finished k j (submits s spec id now fresh) h g t = elim (submit-Queues id now s.manager spec) [
  | inl (jobs, queue) ↦ inr (ap (λ m. get m k) jobs ∙ g)
  | inr (jobs, queue) ↦ inr (
      ap (λ m. get m k) jobs
      ∙ get-put_ne s.manager.jobs id (new_job (trimmed spec) id now) k
          (beq_ne id k (λ e. absurd (clash (sym fresh ∙ ap (get s.manager.jobs) e ∙ g))))
      ∙ g)
]
  where
    clash : none ≡ some j → ⊥
    clash p = cc
Step-finished k j (receives s id rest q) h g t = inr g
Step-finished k j (drops s before id after now q) h g t =
    finish-Keeps s.manager id cancellation now k j
      (unfinished_ne s.manager.jobs id k j queued (h.waits id (taken_waits s before id after q))
        refl g t)
      g
Step-finished k j (starts s before id after now q) h g t =
    let (i, here, a) = h.waits id (taken_waits s before id after q) in
    rw (here, start_running)
      (inr (
        get-put_ne s.manager.jobs id _ k
          (unfinished_ne s.manager.jobs id k j queued (i, here, a) refl g t)
        ∙ g))
Step-finished k j (ends s before id after outcome now q) h g t =
    finish-Keeps s.manager id outcome now k j
      (unfinished_ne s.manager.jobs id k j running
        (h.runs id (subst (In id) (sym q) (In-here before id after))) refl g t)
      g
Step-finished k j (begins s) h g t = inr (ap (λ m. get m k) (start-Same s.manager).0 ∙ g)
Step-finished k j (drained s none_taken none_busy) h g t = inr g
Step-finished k j (stops s) h g t = inr (ap (λ m. get m k) (shutdown-Same s.manager).0 ∙ g)

-- A manager that was neither started nor shut down before reports itself as started after
-- Shutdown and then Start, and Submit without a key and a fingerprint panics on its closed
-- channel.
pub start_after_shutdown_panics :
    (m : Manager) (spec : TaskSpec) (id : Text) (now : Time)
    → m.start_called ≡ false
    → m.shutdown_called ≡ false
    → trim_space spec.idempotency_key ≡ []
    → trim_space spec.fingerprint ≡ []
    → (started (start (shutdown m)) ≡ true)
      × ((submit (start (shutdown m)) spec id now).1 ≡ panicked)
unfolding start shutdown started submit
start_after_shutdown_panics m spec id now a b p q = simp (b, a, p, q) (refl, refl)
