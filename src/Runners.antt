-- ===== src/Runners.antt =====
-- crons/integrity/runner.go and crons/collection/runner.go: processServer, over the in-memory storage and
-- the locks. The log files of a server are taken one after the other, as with one worker for a host; the
-- context may be cancelled before any of them, so that only the first `started` files are taken.
pub mod Cancelled
use log_integrity.Prelude.{
  ℕ, Bool, true, false, List, [], ◌∷◌, Text, keep, length, take, if◌then◌else◌,
}
use log_integrity.Models.{Server, ServerStatus, LogFile, Time}
use log_integrity.Hasher.{Crypto}
use log_integrity.Memory.{Storage}
use log_integrity.Memory.Listings.Files.{list_log_files_by_server}
use log_integrity.Health.{Options, should_skip}
use log_integrity.Locks.{Manager, try_lock, unlock}
use log_integrity.Collector.Remote.{Client}
use log_integrity.Collector.Collect.{Service, Inputs}
use log_integrity.Integrity.Check.{Stamp}
use log_integrity.CheckService.{no_summary, run_files, record_summary, server_key}
use log_integrity.LogFileService.{collect_files, record_collection}

abbrev pub is_inactive : ServerStatus → Bool
is_inactive ServerStatus.unset = false
is_inactive ServerStatus.active = false
is_inactive ServerStatus.degraded = false
is_inactive ServerStatus.inactive = true
is_inactive ServerStatus.error = false

abbrev pub active_files : Storage → Server → List LogFile
active_files s server = keep (λ f. f.is_active) (list_log_files_by_server s server.id)

-- The work, where there is a file.
abbrev pub work_on : Storage → (Storage → List LogFile → Storage) → List LogFile → Storage
work_on s work [] = s
work_on s work (file ∷ files) = work s (file ∷ files)

-- What both runners do around their work on the active files: the tests and the lock.
unfoldable pub guarded :
    Time → Manager → Storage → Server → (Storage → List LogFile → Storage) → Manager × Storage
unfolding should_skip try_lock unlock list_log_files_by_server
guarded at locks s server work =
    let (held, free) = try_lock locks (server_key server.id) in
    if is_inactive server.status
    then (locks, s)
    else if should_skip at server
    then (locks, s)
    else if free
    then (unlock held (server_key server.id), work_on s work (active_files s server))
    else (held, s)

module _ (crypto : Crypto) (key : Text) (quoted : Text → Text) (started : ℕ) where
  -- The work of the integrity runner on the active files.
  unfoldable pub check_active :
      Options → (ℕ → Stamp) → Time → Time → Client → Server → Storage → List LogFile → Storage
  unfolding run_files record_summary
  check_active options stamp seen_at now client server s files =
      let (t, results, m) =
        run_files crypto key quoted stamp client server s [] no_summary (take started files) in
      record_summary options t server m (length files) seen_at now

  -- processServer of the integrity runner.
  unfoldable pub process_integrity :
      Options
      → (ℕ → Stamp)
      → Time
      → Time
      → Time
      → Client
      → Manager
      → Storage
      → Server
      → Manager × Storage
  unfolding guarded check_active
  process_integrity options stamp at seen_at now client locks s server =
      guarded at locks s server (check_active options stamp seen_at now client server)

module _ (crypto : Crypto) (service : Service) (started : ℕ) where
  -- The work of the collection runner on the active files.
  unfoldable pub collect_active :
      Options → (ℕ → Inputs) → Time → Time → Client → Server → Storage → List LogFile → Storage
  unfolding collect_files record_collection
  collect_active options inputs seen_at now client server s files =
      let (t, results, m) =
        collect_files crypto service inputs client server s [] no_summary (take started files) in
      record_collection options t server m (length files) seen_at now

  -- processServer of the collection runner.
  unfoldable pub process_collection :
      Options
      → (ℕ → Inputs)
      → Time
      → Time
      → Time
      → Client
      → Manager
      → Storage
      → Server
      → Manager × Storage
  unfolding guarded collect_active
  process_collection options inputs at seen_at now client locks s server =
      guarded at locks s server (collect_active options inputs seen_at now client server)
