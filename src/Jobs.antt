-- ===== src/Jobs.antt =====
-- internal/jobs/manager.go: the asynchronous job manager. A method returns the new manager; the
-- identifier that uuid.NewString draws and the time that time.Now reads are arguments. The proofs
-- are in the modules below.
pub mod Trim
pub mod Valid
pub mod Submit
pub mod Idempotent
pub mod Effects
pub mod System
pub mod Sound
pub mod History
use log_integrity.Prelude.{
  ℕ, zero, suc, ◌+◌, ◌-◌, ◌≤◌, ◌<◌, Bool, true, false, ◌&&◌, not, Option, none, some, List, [], ◌∷◌,
  ◌++◌, Text, codes, length, ltb, is_empty, ◌==◌, text_eq, text_beq, if◌then◌else◌,
}
use log_integrity.Prelude.GoMap.{GoMap, get, put, delete}
use log_integrity.Prelude.Int.{ℤ, pos, pos_part, leb_ℤ}
use log_integrity.Prelude.Strings.{trim_space}
use log_integrity.Models.{
  Job, JobType, JobStatus, queued, running, succeeded, failed, canceled, Time,
}

pub record Options : Type 0 where
  pub workers : ℤ
  pub queue_size : ℤ
  pub history_limit : ℤ

-- The job maps and their order, the buffered channel as the identifiers of the queued tasks, and the
-- life cycle flags with what `sync.Once` remembers of Start and Shutdown.
pub record Manager : Type 0 where
  pub opts : Options
  pub jobs : GoMap Text Job
  pub order : List Text
  pub idempotency_keys : GoMap Text Text
  pub active_fingerprints : GoMap Text Text
  pub queue : List Text
  pub queue_closed : Bool
  pub workers_started : Bool
  pub shutting_down : Bool
  pub start_called : Bool
  pub shutdown_called : Bool

pub record TaskSpec : Type 0 where
  pub job_type : JobType
  pub idempotency_key : Text
  pub fingerprint : Text
  pub server_id : Text
  pub log_file_id : Text

-- What Submit returns: a job and whether it was there before, an error, or the panic of a send on a
-- closed channel.
pub data Submitted : Type 0 where
  accepted : Job → Submitted
  reused : Job → Submitted
  queue_full shutting_down panicked : Submitted

or_default : ℤ → ℕ → ℤ
or_default n default = if leb_ℤ n (pos 0) then pos default else n

unfoldable pub new_manager : Options → Manager
unfolding or_default
new_manager o = record {
  opts = record {
    workers = or_default o.workers 2;
    queue_size = or_default o.queue_size 128;
    history_limit = or_default o.history_limit 1000;
  };
  jobs = [];
  order = [];
  idempotency_keys = [];
  active_fingerprints = [];
  queue = [];
  queue_closed = false;
  workers_started = false;
  shutting_down = false;
  start_called = false;
  shutdown_called = false;
}

-- Only the first call of Start and the first of Shutdown has an effect.
unfoldable pub start : Manager → Manager
start m =
    if m.start_called
    then m
    else record m { workers_started = true; shutting_down = false; start_called = true }

unfoldable pub shutdown : Manager → Manager
shutdown m =
    if m.shutdown_called
    then m
    else record m { shutting_down = true; queue_closed = true; shutdown_called = true }

-- The end of Shutdown, once the workers are gone; a call that times out before does not get there.
abbrev pub shutdown_done : Manager → Manager
shutdown_done m = record m { workers_started = false }

unfoldable pub started : Manager → Bool
started m = m.workers_started && not m.shutting_down

-- isTerminalJobStatus
abbrev pub is_terminal_job_status : JobStatus → Bool
is_terminal_job_status succeeded = true
is_terminal_job_status failed = true
is_terminal_job_status canceled = true
is_terminal_job_status queued = false
is_terminal_job_status running = false

abbrev pub new_job : TaskSpec → Text → Time → Job
new_job spec id now = record {
  id = id;
  job_type = spec.job_type;
  status = queued;
  idempotency_key = spec.idempotency_key;
  fingerprint = spec.fingerprint;
  server_id = spec.server_id;
  log_file_id = spec.log_file_id;
  error = [];
  result = none;
  created_at = now;
  started_at = none;
  finished_at = none;
}

-- `if key != "" { m[key] = id }`
abbrev pub put_named : GoMap Text Text → Text → Text → GoMap Text Text
put_named m key id = if is_empty key then m else put m key id

-- The send to the channel, which the default case of the `select` refuses when it is full.
unfoldable pub enqueue : Manager → TaskSpec → Text → Time → Manager × Submitted
enqueue m spec id now =
    if m.queue_closed
    then (m, panicked)
    else if ltb (length m.queue) (pos_part m.opts.queue_size)
    then (
      record m {
        jobs = put m.jobs id (new_job spec id now);
        order = m.order ++ id ∷ [];
        idempotency_keys = put_named m.idempotency_keys spec.idempotency_key id;
        active_fingerprints = put_named m.active_fingerprints spec.fingerprint id;
        queue = m.queue ++ id ∷ [];
      },
      accepted (new_job spec id now),
    )
    else (m, queue_full)

-- `job, exists := m.jobs[jobID]` for the identifier under an active fingerprint.
unfoldable pub reuse_active :
    Manager → TaskSpec → Text → Time → Text → Option Job → Manager × Submitted
unfolding enqueue
reuse_active m spec id now job_id (some job) = (
  record m { idempotency_keys = put_named m.idempotency_keys spec.idempotency_key job_id },
  reused job,
)
reuse_active m spec id now job_id none =
    enqueue (record m { active_fingerprints = delete m.active_fingerprints spec.fingerprint }) spec
      id now

unfoldable pub find_active : Manager → TaskSpec → Text → Time → Option Text → Manager × Submitted
unfolding reuse_active enqueue
find_active m spec id now none = enqueue m spec id now
find_active m spec id now (some job_id) = reuse_active m spec id now job_id (get m.jobs job_id)

-- The part of Submit from the test on the fingerprint.
unfoldable pub submit_by_fingerprint : Manager → TaskSpec → Text → Time → Manager × Submitted
unfolding find_active
submit_by_fingerprint m spec id now =
    if is_empty spec.fingerprint
    then enqueue m spec id now
    else find_active m spec id now (get m.active_fingerprints spec.fingerprint)

-- `job, exists := m.jobs[jobID]` for the identifier under an idempotency key.
unfoldable pub reuse_keyed : Manager → TaskSpec → Text → Time → Option Job → Manager × Submitted
unfolding submit_by_fingerprint
reuse_keyed m spec id now (some job) = (m, reused job)
reuse_keyed m spec id now none =
    submit_by_fingerprint
      (record m { idempotency_keys = delete m.idempotency_keys spec.idempotency_key }) spec id now

unfoldable pub find_keyed : Manager → TaskSpec → Text → Time → Option Text → Manager × Submitted
unfolding reuse_keyed submit_by_fingerprint
find_keyed m spec id now none = submit_by_fingerprint m spec id now
find_keyed m spec id now (some job_id) = reuse_keyed m spec id now (get m.jobs job_id)

-- The part of Submit from the test on the idempotency key.
unfoldable pub submit_by_key : Manager → TaskSpec → Text → Time → Manager × Submitted
unfolding find_keyed
submit_by_key m spec id now =
    if is_empty spec.idempotency_key
    then submit_by_fingerprint m spec id now
    else find_keyed m spec id now (get m.idempotency_keys spec.idempotency_key)

abbrev pub trimmed : TaskSpec → TaskSpec
trimmed spec = record spec {
  idempotency_key = trim_space spec.idempotency_key;
  fingerprint = trim_space spec.fingerprint;
}

unfoldable pub submit : Manager → TaskSpec → Text → Time → Manager × Submitted
unfolding submit_by_key
submit m spec id now =
    if m.shutting_down then (m, shutting_down) else submit_by_key m (trimmed spec) id now

-- GetJob
unfoldable pub get_job : Manager → Text → Option Job
get_job m id = get m.jobs id

-- startRunning
unfoldable pub start_running : Manager → Text → Time → Manager
start_running m id now = elim (get m.jobs id) [
  | none ↦ m
  | some job ↦ record m {
    jobs =
        put m.jobs id (record job { status = running; started_at = some now; finished_at = none });
  }
]

-- releaseActiveFingerprint
abbrev pub release_active_fingerprint : GoMap Text Text → Job → GoMap Text Text
release_active_fingerprint fps job =
    if is_empty job.fingerprint then fps else elim (get fps job.fingerprint) [
      | none ↦ fps
      | some id ↦ if id == job.id then delete fps job.fingerprint else fps
    ]

abbrev pub with_first : Text → Option (Text × Job × List Text) → Option (Text × Job × List Text)
with_first id none = none
with_first id (some (found, job, order)) = some (found, job, id ∷ order)

-- The first terminal job of the order, with the order that is left without it.
unfoldable pub first_terminal : GoMap Text Job → List Text → Option (Text × Job × List Text)
first_terminal jobs [] = none
first_terminal jobs (id ∷ order) =
    let rest = with_first id (first_terminal jobs order) in
    elim (get jobs id) [
      | none ↦ rest
      | some job ↦ if is_terminal_job_status job.status then some (id, job, order) else rest
    ]

abbrev pub forget_key : GoMap Text Text → Text → Job → GoMap Text Text
forget_key ks id job =
    if is_empty job.idempotency_key then ks else elim (get ks job.idempotency_key) [
      | none ↦ ks
      | some current ↦ if current == id then delete ks job.idempotency_key else ks
    ]

-- Takes one job out of the history.
unfoldable pub drop_job : Manager → Text × Job × List Text → Manager
drop_job m (id, job, order) = record m {
  jobs = delete m.jobs id;
  idempotency_keys = forget_key m.idempotency_keys id job;
  order = order;
}

-- The loop of trimHistoryLocked; each round drops a job, so the number of jobs bounds the rounds.
unfoldable pub trim_loop : ℕ → Manager → Manager
unfolding first_terminal drop_job
trim_loop zero m = m
trim_loop (suc rounds) m =
    if ltb (pos_part m.opts.history_limit) (length m.jobs)
    then elim (first_terminal m.jobs m.order) [
      | none ↦ m
      | some found ↦ trim_loop rounds (drop_job m found)
    ]
    else m

unfoldable pub trim_history : Manager → Manager
unfolding trim_loop
trim_history m = if leb_ℤ m.opts.history_limit (pos 0) then m else trim_loop (length m.jobs) m

-- How a runner ended: the JSON of its result if it has one, an error text, or a cancellation.
pub data Outcome : Type 0 where
  success : Option Text → Outcome
  failure : Text → Outcome
  cancellation : Outcome

abbrev pub finished : Job → Outcome → Time → Job
finished job (success payload) now = record job {
  status = succeeded;
  error = [];
  result = payload;
  finished_at = some now;
}
finished job (failure message) now = record job {
  status = failed;
  error = message;
  finished_at = some now;
}
finished job cancellation now = record job {
  status = canceled;
  error = codes "context canceled";
  finished_at = some now;
}

-- finishSucceeded, finishFailed and finishCanceled.
unfoldable pub finish : Manager → Text → Outcome → Time → Manager
unfolding trim_history
finish m id outcome now = elim (get m.jobs id) [
  | none ↦ m
  | some job ↦ trim_history (record m {
    jobs = put m.jobs id (finished job outcome now);
    active_fingerprints =
        release_active_fingerprint m.active_fingerprints (finished job outcome now);
  })
]
