-- ===== src/CheckService.antt =====
-- internal/service/check/service.go: Run, over the in-memory storage and the locks. A service without a
-- locker is one whose locks no one else takes.
pub mod Health
use log_integrity.Prelude.{
  ℕ, zero, suc, ◌+◌, Bool, true, false, not, ◌&&◌, Option, none, some, List, [], ◌∷◌, ◌++◌, Text,
  ◌==◌, text_eq, is_empty, nat_beq, length, codes, if◌then◌else◌,
}
use log_integrity.Prelude.GoMap.{GoMap, put}
use log_integrity.Prelude.Decimal.{itoa}
use log_integrity.Models.{Server, LogFile, CheckResult, CheckStatus, TamperedEntry, Time}
use log_integrity.Hasher.{Crypto}
use log_integrity.Repository.{Error, conflict, failed, Result, ok, err}
use log_integrity.Memory.{Storage}
use log_integrity.Memory.Servers.{get_server_by_id}
use log_integrity.Memory.LogFiles.{get_log_file_by_id}
use log_integrity.Memory.Answers.{memory_reads}
use log_integrity.Memory.Listings.Files.{list_log_files_by_server}
use log_integrity.Health.{Options}
use log_integrity.Health.Records.{record_success, record_failure, record_degraded}
use log_integrity.Locks.{Manager, try_lock, unlock}
use log_integrity.Collector.Remote.{Client}
use log_integrity.Integrity.Check.{Checked, Stamp, check_log_file, error_text}

-- RunResult
pub record RunResult : Type 0 where
  pub result : Option CheckResult
  pub tampered_entries : List TamperedEntry
  pub error : Text

-- The counters of Run, with the text of the first error.
pub record Summary : Type 0 where
  pub succeeded : ℕ
  pub failed : ℕ
  pub tampered : ℕ
  pub first_error : Option Text

abbrev pub no_summary : Summary
no_summary = record { succeeded = 0; failed = 0; tampered = 0; first_error = none }

abbrev first_of : Option Text → Text → Option Text
first_of none t = some t
first_of (some first) t = some first

abbrev pub with_failure : Summary → Text → Summary
with_failure m text = record m { failed = suc m.failed; first_error = first_of m.first_error text }

-- The counters after a result without an error.
abbrev with_result : Summary → CheckResult → Summary
with_result m r = elim r.status [
  | CheckStatus.error ↦ with_failure m r.error_message
  | CheckStatus.tampered ↦ record m { succeeded = suc m.succeeded; tampered = suc m.tampered }
  | CheckStatus.ok ↦ record m { succeeded = suc m.succeeded }
]

-- The counters after one round of the loop.
unfoldable pub counted : Summary → Checked → Summary
counted m c = elim c.error [
  | some x ↦ with_failure m (error_text x)
  | none ↦ elim c.result [
    | none ↦ record m { succeeded = suc m.succeeded }
    | some r ↦ with_result m r
  ]
]

abbrev error_message_of : CheckResult → Text
error_message_of r = elim r.status [
  | CheckStatus.error ↦ r.error_message
  | CheckStatus.tampered ↦ []
  | CheckStatus.ok ↦ []
]

-- What Run reports of one file.
abbrev run_result : Checked → RunResult
run_result c = elim c.error [
  | some x ↦ record { result = none; tampered_entries = []; error = error_text x }
  | none ↦ record {
    result = c.result;
    tampered_entries = c.tampered;
    error = elim c.result [ none ↦ [] | some r ↦ error_message_of r ];
  }
]

-- buildIntegrityDegradedMessage
unfoldable pub build_integrity_degraded_message : ℕ → ℕ → ℕ → Text
unfolding itoa
build_integrity_degraded_message failures tampered total =
    if not (nat_beq failures 0) && not (nat_beq tampered 0)
    then codes "integrity completed with "
      ++ itoa failures
      ++ codes " check errors and "
      ++ itoa tampered
      ++ codes " tampered log files out of "
      ++ itoa total
    else if not (nat_beq failures 0)
    then codes "integrity partially failed for "
      ++ itoa failures
      ++ codes " of "
      ++ itoa total
      ++ codes " log files"
    else codes "integrity detected tampering in "
      ++ itoa tampered
      ++ codes " of "
      ++ itoa total
      ++ codes " log files"

-- resolveLogFiles
unfoldable pub resolve_log_files : Storage → Text → Text → Result (List LogFile)
unfolding get_log_file_by_id list_log_files_by_server
resolve_log_files s server_id [] = ok (list_log_files_by_server s server_id)
resolve_log_files s server_id (c ∷ id) = elim (get_log_file_by_id s (c ∷ id)) [
  | err x ↦ err x
  | ok file ↦ if file.server_id == server_id then ok (file ∷ []) else err conflict
]

-- `"server:" + serverID`
abbrev pub server_key : Text → Text
server_key id = codes "server:" ++ id

-- The health record at the end of Run; its error is left out.
unfoldable pub record_summary : Options → Storage → Server → Summary → ℕ → Time → Time → Storage
unfolding record_success record_failure record_degraded build_integrity_degraded_message
record_summary options s server m total seen_at now =
    if nat_beq m.failed 0 && nat_beq m.tampered 0
    then (record_success s server.id seen_at now).0
    else if nat_beq m.succeeded 0
    then (record_failure options s server m.first_error seen_at now).0
    else (record_degraded options s server.id
        (build_integrity_degraded_message m.failed m.tampered total) seen_at now).0

module _ (crypto : Crypto) (key : Text) (quoted : Text → Text) where
  -- The loop of Run, with the stamp of each file and the results so far.
  unfoldable pub run_files :
      (ℕ → Stamp)
      → Client
      → Server
      → Storage
      → GoMap Text RunResult
      → Summary
      → List LogFile
      → Storage × GoMap Text RunResult × Summary
  unfolding check_log_file counted
  run_files stamp client server s results m [] = (s, results, m)
  run_files stamp client server s results m (file ∷ files) =
      let (t, checked) =
        check_log_file crypto key quoted (memory_reads s) (stamp 0) client server s file in
      run_files (λ i. stamp (suc i)) client server t (put results file.id (run_result checked))
        (counted m checked) files

  -- The part of Run after the files are known.
  unfoldable pub run_resolved :
      Options
      → (ℕ → Stamp)
      → Time
      → Time
      → Client
      → Server
      → Storage
      → List LogFile
      → Storage × GoMap Text RunResult
  unfolding run_files record_summary
  run_resolved options stamp seen_at now client server s [] = (s, [])
  run_resolved options stamp seen_at now client server s (file ∷ files) =
      let (t, results, m) = run_files stamp client server s [] no_summary (file ∷ files) in
      (record_summary options t server m (length (file ∷ files)) seen_at now, results)

  -- Run under the lock.
  abbrev pub run_locked :
      Options
      → (ℕ → Stamp)
      → Time
      → Time
      → Client
      → Server
      → Storage
      → Text
      → Storage × Result (GoMap Text RunResult)
  run_locked options stamp seen_at now client server s log_file_id =
      elim (resolve_log_files s server.id log_file_id) [
        | err x ↦ (s, err x)
        | ok files ↦
            let (t, results) = run_resolved options stamp seen_at now client server s files in
            (t, ok results)
      ]

  -- Run: the locks, the storage and the result.
  unfoldable pub run :
      Options
      → (ℕ → Stamp)
      → Time
      → Time
      → Client
      → Manager
      → Storage
      → Text
      → Text
      → Manager × Storage × Result (GoMap Text RunResult)
  unfolding get_server_by_id try_lock unlock resolve_log_files run_resolved
  run options stamp seen_at now client locks s server_id log_file_id =
      elim (get_server_by_id s server_id) [
        | err x ↦ (locks, s, err x)
        | ok server ↦
            let (held, free) = try_lock locks (server_key server.id) in
            let (t, outcome) = run_locked options stamp seen_at now client server s log_file_id in
            if free
            then (unlock held (server_key server.id), t, outcome)
            else (held, s, err (failed (codes "check: server is busy")))
      ]
