-- ===== src/LogFileService.antt =====
-- internal/service/logfile/service.go: Collect, over the in-memory storage and the locks. A service without
-- a locker is one whose locks no one else takes.
use log_integrity.Prelude.{
  ℕ, suc, List, [], ◌∷◌, ◌++◌, Text, nat_beq, length, codes, if◌then◌else◌, text_eq,
}
use log_integrity.Prelude.GoMap.{GoMap, put}
use log_integrity.Prelude.Decimal.{itoa}
use log_integrity.Models.{Server, LogFile, Time}
use log_integrity.Hasher.{Crypto}
use log_integrity.Repository.{failed, Result, ok, err}
use log_integrity.Memory.{Storage}
use log_integrity.Memory.Servers.{get_server_by_id}
use log_integrity.Memory.Listings.Files.{list_active_log_files, list_log_files_by_server}
use log_integrity.Health.{Options}
use log_integrity.Health.Records.{record_success, record_failure, record_degraded}
use log_integrity.Locks.{Manager, try_lock, unlock}
use log_integrity.Collector.Remote.{Client}
use log_integrity.Collector.Collect.{Service, Inputs, collect_log_file}
use log_integrity.Integrity.Check.{error_text}
use log_integrity.CheckService.{Summary, no_summary, with_failure, resolve_log_files, server_key}

-- CollectResult
pub record CollectResult : Type 0 where
  pub collected_entries : ℕ
  pub error : Text

-- List
unfoldable pub list : Storage → Text → List LogFile
unfolding list_active_log_files list_log_files_by_server
list s [] = list_active_log_files s
list s (c ∷ id) = list_log_files_by_server s (c ∷ id)

-- What Collect reports of one file.
abbrev collect_result : Result ℕ → CollectResult
collect_result (ok count) = record { collected_entries = count; error = [] }
collect_result (err x) = record { collected_entries = 0; error = error_text x }

-- The counters after one round of the loop.
abbrev pub counted_collection : Summary → Result ℕ → Summary
counted_collection m (ok count) = record m { succeeded = suc m.succeeded }
counted_collection m (err x) = with_failure m (error_text x)

-- The health record at the end; its error is left out.
unfoldable pub record_collection : Options → Storage → Server → Summary → ℕ → Time → Time → Storage
unfolding record_success record_failure record_degraded itoa
record_collection options s server m total seen_at now =
    if nat_beq m.failed 0
    then (record_success s server.id seen_at now).0
    else if nat_beq m.succeeded 0
    then (record_failure options s server m.first_error seen_at now).0
    else (record_degraded options s server.id
        (codes "collection partially failed for "
          ++ itoa m.failed
          ++ codes " of "
          ++ itoa total
          ++ codes " log files")
        seen_at now).0

module _ (crypto : Crypto) (service : Service) where
  -- The loop of Collect, with the inputs of each file and the results so far.
  unfoldable pub collect_files :
      (ℕ → Inputs)
      → Client
      → Server
      → Storage
      → GoMap Text CollectResult
      → Summary
      → List LogFile
      → Storage × GoMap Text CollectResult × Summary
  unfolding collect_log_file
  collect_files inputs client server s results m [] = (s, results, m)
  collect_files inputs client server s results m (file ∷ files) =
      let (t, collected) = collect_log_file crypto service (inputs 0) client server s file in
      collect_files (λ i. inputs (suc i)) client server t
        (put results file.id (collect_result collected)) (counted_collection m collected) files

  -- The part of Collect after the files are known.
  unfoldable pub collect_resolved :
      Options
      → (ℕ → Inputs)
      → Time
      → Time
      → Client
      → Server
      → Storage
      → List LogFile
      → Storage × GoMap Text CollectResult
  unfolding collect_files record_collection
  collect_resolved options inputs seen_at now client server s [] = (s, [])
  collect_resolved options inputs seen_at now client server s (file ∷ files) =
      let (t, results, m) = collect_files inputs client server s [] no_summary (file ∷ files) in
      (record_collection options t server m (length (file ∷ files)) seen_at now, results)

  abbrev collect_locked :
      Options
      → (ℕ → Inputs)
      → Time
      → Time
      → Client
      → Server
      → Storage
      → Text
      → Storage × Result (GoMap Text CollectResult)
  collect_locked options inputs seen_at now client server s log_file_id =
      elim (resolve_log_files s server.id log_file_id) [
        | err x ↦ (s, err x)
        | ok files ↦
            let (t, results) = collect_resolved options inputs seen_at now client server s files in
            (t, ok results)
      ]

  -- Collect: the locks, the storage and the result.
  unfoldable pub collect :
      Options
      → (ℕ → Inputs)
      → Time
      → Time
      → Client
      → Manager
      → Storage
      → Text
      → Text
      → Manager × Storage × Result (GoMap Text CollectResult)
  unfolding get_server_by_id try_lock unlock resolve_log_files collect_resolved
  collect options inputs seen_at now client locks s server_id log_file_id =
      elim (get_server_by_id s server_id) [
        | err x ↦ (locks, s, err x)
        | ok server ↦
            let (held, free) = try_lock locks (server_key server.id) in
            let (t, outcome) =
              collect_locked options inputs seen_at now client server s log_file_id in
            if free
            then (unlock held (server_key server.id), t, outcome)
            else (held, s, err (failed (codes "logfile: server is busy")))
      ]
