-- ===== src/Tests/Jobs.antt =====
-- A manager with one queued job.
use log_integrity.Prelude.{◌≡◌, refl, true, false, none, some, [], ◌∷◌, ◌++◌, codes, text_eq}
use log_integrity.Prelude.Classes.{text_beq}
use log_integrity.Prelude.GoMap.{get, put}
use log_integrity.Prelude.Int.{pos}
use log_integrity.Prelude.Strings.{trim_space}
use log_integrity.Models.{Job, JobType, JobStatus}
use log_integrity.Jobs.{
  Manager, Options, TaskSpec, success, new_manager, start, shutdown, started, submit, reused,
  panicked, new_job, trimmed, start_running, finish, trim_history, is_terminal_job_status, enqueue,
  finished,
}
use log_integrity.Jobs.Trim.{IsTrimmed, trim_history-IsTrimmed}
use log_integrity.Jobs.Valid.{IsValid, new_manager-IsValid}
use log_integrity.Jobs.Submit.{submit-IsValid, submit_active_fingerprint}
use log_integrity.Jobs.Idempotent.{submit_twice}
use log_integrity.Jobs.Effects.{Queues, submit-Queues, get-finish}
use log_integrity.Jobs.System.{
  System, submits, Reach, here, next, IsSound, begins, ends, starts, receives,
}
use log_integrity.Jobs.Sound.{Reach-IsSound, Reach-active_unique}
use log_integrity.Jobs.History.{Keeps, Step-finished, start_after_shutdown_panics}

abbrev options : Options
options = record { workers = pos 1; queue_size = pos 2; history_limit = pos 1 }

-- No key, and a fingerprint.
abbrev spec : TaskSpec
spec = record {
  job_type = JobType.collect;
  idempotency_key = [];
  fingerprint = codes "f";
  server_id = codes "s";
  log_file_id = [];
}

abbrev keyed : TaskSpec
keyed = record spec { idempotency_key = codes "k" }

abbrev plain : TaskSpec
plain = record spec { fingerprint = [] }

abbrev one_job : Manager
one_job = (submit (new_manager options) spec (codes "1") 3).0

abbrev initial : System
initial = record { manager = new_manager options; taken = []; busy = [] }

abbrev job : Job
job = new_job spec (codes "1") 3

one_job-IsValid : IsValid one_job
unfolding new_manager get
one_job-IsValid =
    submit-IsValid (new_manager options) spec (codes "1") 3 (new_manager-IsValid options) refl

stored : get one_job.jobs (codes "1") ≡ some job
unfolding submit new_manager get put trim_space enqueue text_beq
stored = refl

Reach-IsSound_example : IsSound (record initial { manager = one_job })
unfolding new_manager get
Reach-IsSound_example = Reach-IsSound options (next here (submits initial spec (codes "1") 3 refl))

Reach-active_unique_example : codes "1" ≡ codes "1"
unfolding new_manager get
Reach-active_unique_example =
    Reach-active_unique options (codes "1") (codes "1") job job
      (next here (submits initial spec (codes "1") 3 refl)) stored stored refl refl refl refl

submit_active_fingerprint_example :
    ((submit one_job spec (codes "2") 4).1 ≡ reused job)
    × ((submit one_job spec (codes "2") 4).0.jobs ≡ one_job.jobs)
    × ((submit one_job spec (codes "2") 4).0.order ≡ one_job.order)
    × ((submit one_job spec (codes "2") 4).0.queue ≡ one_job.queue)
unfolding submit new_manager trim_space get put text_beq
submit_active_fingerprint_example =
    submit_active_fingerprint one_job spec (codes "2") (codes "1") 4 job one_job-IsValid refl refl
      stored refl refl refl

abbrev keyed_job : Manager
keyed_job = (submit (new_manager options) keyed (codes "1") 3).0

abbrev spaced : TaskSpec
spaced = record keyed {
  idempotency_key = codes " " ++ keyed.idempotency_key;
  fingerprint = codes "other";
}

submit_twice_example :
    submit (submit (new_manager options) keyed (codes "1") 3).0 spaced (codes "2") 4
    ≡ ((submit (new_manager options) keyed (codes "1") 3).0, reused (new_job keyed (codes "1") 3))
unfolding submit new_manager get put trim_space enqueue text_beq
submit_twice_example =
    submit_twice (new_manager options) keyed spaced (codes "1") (codes "2") 3 4
      (new_job keyed (codes "1") 3) refl refl refl

submit-Queues_example :
    Queues (codes "2") 4 (trimmed plain) one_job (submit one_job plain (codes "2") 4)
submit-Queues_example = submit-Queues (codes "2") 4 one_job plain

get-finish_example :
    ((j : Job)
      → get (finish one_job (codes "2") (success none) 5).jobs (codes "1") ≡ some j
      → get one_job.jobs (codes "1") ≡ some j)
    × ((j : Job)
        → get one_job.jobs (codes "1") ≡ some j
        → is_terminal_job_status j.status ≡ false
        → get (finish one_job (codes "2") (success none) 5).jobs (codes "1") ≡ some j)
unfolding text_beq
get-finish_example = get-finish one_job (codes "2") (success none) 5 (codes "1") refl

trim_history-IsTrimmed_example : IsTrimmed (trim_history one_job)
unfolding submit new_manager trim_space enqueue get put text_beq
trim_history-IsTrimmed_example = trim_history-IsTrimmed one_job refl

start_after_shutdown_panics_example :
    (started (start (shutdown (new_manager options))) ≡ true)
    × ((submit (start (shutdown (new_manager options))) plain (codes "1") 3).1 ≡ panicked)
unfolding new_manager trim_space
start_after_shutdown_panics_example =
    start_after_shutdown_panics (new_manager options) plain (codes "1") 3 refl refl refl refl

abbrev submitted : System
submitted = record initial { manager = one_job }

abbrev received : System
received = record submitted {
  manager = record submitted.manager { queue = [] };
  taken = [] ++ codes "1" ∷ [];
}

abbrev running : System
running = record received {
  manager = start_running received.manager (codes "1") 4;
  taken = [] ++ [];
  busy = codes "1" ∷ [];
}

abbrev ended : System
ended = record running {
  manager = finish running.manager (codes "1") (success none) 5;
  busy = [] ++ [];
}

reached : Reach initial ended
unfolding new_manager submit get put trim_space enqueue text_beq
reached =
    next
      (next
        (next (next here (submits initial spec (codes "1") 3 refl))
          (receives submitted (codes "1") [] refl))
        (starts received [] (codes "1") [] 4 refl))
      (ends running [] (codes "1") [] (success none) 5 refl)

abbrev done : Job
done = finished (record job { status = JobStatus.running; started_at = some 4 }) (success none) 5

done_stored : get ended.manager.jobs (codes "1") ≡ some done
unfolding new_manager submit get put trim_space enqueue text_beq start_running finish trim_history
done_stored = refl

Step-finished_example : Keeps done (get (start ended.manager).jobs (codes "1"))
Step-finished_example =
    Step-finished (codes "1") done (begins ended) (Reach-IsSound options reached) done_stored refl
