-- ===== src/Jobs/System.antt =====
-- The manager among its callers and workers. A step is one critical section of manager.go, or one
-- receive from the channel; any number of workers interleave in any order.
use log_integrity.Prelude.{◌≡◌, none, some, List, [], ◌∷◌, ◌++◌, In, Distinct, Text, text_eq}
use log_integrity.Prelude.GoMap.{get}
use log_integrity.Models.{Job, queued, running, Time}
use log_integrity.Jobs.{
  Manager, TaskSpec, Outcome, cancellation, start, shutdown, shutdown_done, submit, start_running,
  finish,
}
use log_integrity.Jobs.Valid.{IsValid}

-- The manager, the tasks that workers have received and not started, and those that they run.
pub record System : Type 0 where
  pub manager : Manager
  pub taken : List Text
  pub busy : List Text

pub data Step : System → System → Type 0 where
  submits :
      (s : System) (spec : TaskSpec) (id : Text) (now : Time)
      → get s.manager.jobs id ≡ none
      → Step s (record s { manager = (submit s.manager spec id now).0 })
  receives :
      (s : System) (id : Text) (rest : List Text)
      → s.manager.queue ≡ id ∷ rest
      → Step s
          (record s { manager = record s.manager { queue = rest }; taken = s.taken ++ id ∷ [] })
  -- The context is canceled: the task is not run.
  drops :
      (s : System) (before : List Text) (id : Text) (after : List Text) (now : Time)
      → s.taken ≡ before ++ id ∷ after
      → Step s
          (record s { manager = finish s.manager id cancellation now; taken = before ++ after })
  starts :
      (s : System) (before : List Text) (id : Text) (after : List Text) (now : Time)
      → s.taken ≡ before ++ id ∷ after
      → Step s (record s {
        manager = start_running s.manager id now;
        taken = before ++ after;
        busy = id ∷ s.busy;
      })
  ends :
      (s : System) (before : List Text) (id : Text) (after : List Text) (outcome : Outcome)
      (now : Time)
      → s.busy ≡ before ++ id ∷ after
      → Step s (record s { manager = finish s.manager id outcome now; busy = before ++ after })
  begins : (s : System) → Step s (record s { manager = start s.manager })
  -- Shutdown has seen every worker exit.
  drained :
      (s : System)
      → s.taken ≡ []
      → s.busy ≡ []
      → Step s (record s { manager = shutdown_done s.manager })
  stops : (s : System) → Step s (record s { manager = shutdown s.manager })

pub data Reach (s : System) : System → Type 0 where
  here : Reach s s
  next : {t u : System} → Reach s t → Step t u → Reach s u

abbrev pub waiting : System → List Text
waiting s = s.taken ++ s.manager.queue

-- A task that waits is of a queued job, one that a worker runs is of a running job, each once, and the
-- index of active fingerprints is right.
pub record IsSound (s : System) : Type 0 where
  pub valid : IsValid s.manager
  pub waits :
      (id : Text)
      → In id (waiting s)
      → (j : Job) × (get s.manager.jobs id ≡ some j) × (j.status ≡ queued)
  pub runs :
      (id : Text)
      → In id s.busy
      → (j : Job) × (get s.manager.jobs id ≡ some j) × (j.status ≡ running)
  pub waits_once : Distinct (waiting s)
  pub runs_once : Distinct s.busy
