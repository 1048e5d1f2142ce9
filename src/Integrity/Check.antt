-- ===== src/Integrity/Check.antt =====
-- internal/service/integrity/service.go: CheckLogFile and CheckServer, over the in-memory storage. The verb
-- %q of fmt is a parameter.
pub mod Verdict
use log_integrity.Prelude.{
  ℕ, suc, Bool, true, false, not, Option, none, some, List, [], ◌∷◌, ◌++◌, Text, text_eq, is_empty,
  length, codes, if◌then◌else◌,
}
use log_integrity.Prelude.GoMap.{GoMap, get, put}
use log_integrity.Prelude.Int.{ℤ, int_eq}
use log_integrity.Models.{Server, LogFile, CheckResult, CheckStatus, TamperedEntry, Time}
use log_integrity.Hasher.{Crypto}
use log_integrity.Repository.{Error, not_found, conflict, failed, Result, ok, err}
use log_integrity.Memory.{Storage}
use log_integrity.Memory.Entries.{exists, count_log_entries}
use log_integrity.Memory.Checks.{create_check_result, completed_result}
use log_integrity.Memory.Answers.{memory_reads}
use log_integrity.Collector.Source.{Line, requires_recollection}
use log_integrity.Collector.Remote.{Client, Inspected, inspect_log_file_identity, read_log_lines}
use log_integrity.Integrity.{Reads, find_tampered_entries}

-- What CheckLogFile returns: the result, the reports, and the error.
pub record Checked : Type 0 where
  pub result : Option CheckResult
  pub tampered : List TamperedEntry
  pub error : Option Error

-- `err.Error()` of an error that nothing wraps.
abbrev pub error_text : Error → Text
error_text Error.not_found = codes "storage: not found"
error_text Error.conflict = codes "storage: conflict"
error_text (Error.failed t) = t

-- The identifier and the time that a check takes from the outside.
pub record Stamp : Type 0 where
  pub drawn : Text
  pub now : Time

-- The model that CreateCheckResult leaves with its caller.
abbrev pub after_create : Storage → Stamp → CheckResult → CheckResult
after_create s stamp result =
    let id = if is_empty result.id then stamp.drawn else result.id in
    if not (exists (get s.log_files result.log_file_id))
    then result
    else if exists (get s.checks id)
    then record result { id = id }
    else completed_result result id stamp.now

abbrev pub failed_result : Text → Text → CheckResult
failed_result id message = record {
  id = [];
  log_file_id = id;
  checked_at = 0;
  status = CheckStatus.error;
  total_lines = 0;
  tampered_lines = 0;
  error_message = message;
}

-- storeErrorResult, which leaves out the error of the repository.
unfoldable pub store_error_result : Storage → Stamp → Text → Text → Storage × CheckResult
unfolding create_check_result
store_error_result s stamp id message = (
  (create_check_result s stamp.drawn stamp.now (failed_result id message)).0,
  after_create s stamp (failed_result id message),
)

-- The map of the current lines; of two lines with one number the later one counts.
unfoldable pub current_by_line : GoMap ℤ Text → List Line → GoMap ℤ Text
current_by_line m [] = m
current_by_line m (line ∷ lines) = current_by_line (put m line.number line.content) lines

-- The result of a comparison.
abbrev pub compared_result : Text → ℕ → List TamperedEntry → CheckResult
compared_result id total tampered = record {
  id = [];
  log_file_id = id;
  checked_at = 0;
  status = if is_empty tampered then CheckStatus.ok else CheckStatus.tampered;
  total_lines = total;
  tampered_lines = length tampered;
  error_message = [];
}

abbrev pub error_only : Error → Checked
error_only x = record { result = none; tampered = []; error = some x }

-- The end of CheckLogFile: the result is saved and returned.
unfoldable pub save_result : Storage → Stamp → CheckResult → List TamperedEntry → Storage × Checked
unfolding create_check_result
save_result s stamp result tampered =
    let (saved, outcome) = create_check_result s stamp.drawn stamp.now result in
    elim outcome [
      | err x ↦ (saved, error_only x)
      | ok u ↦ (
        saved,
        record { result = some (after_create s stamp result); tampered = tampered; error = none },
      )
    ]

-- `identityErr == nil && RequiresRecollection(logFile, currentIdentity)`
unfoldable pub has_changed : LogFile → Result Inspected → Bool
unfolding requires_recollection
has_changed file (ok (identity, meta)) = requires_recollection file identity
has_changed file (err x) = false

module _ (crypto : Crypto) (key : Text) (quoted : Text → Text) where
  abbrev pub changed_message : LogFile → Text
  changed_message file =
      codes "log source "
      ++ quoted file.path
      ++ codes
          " changed identity since last collection; run collection again before integrity check"

  abbrev pub read_message : LogFile → Error → Text
  read_message file x = codes "collector: read " ++ quoted file.path ++ codes ": " ++ error_text x

  abbrev pub connect_message : Server → Error → Text
  connect_message server x = codes "connect to " ++ server.name ++ codes ": " ++ error_text x

  -- An error result, returned with an error or without one.
  abbrev pub refused : Storage → Stamp → LogFile → Text → Option Error → Storage × Checked
  refused s stamp file message error = (
    (store_error_result s stamp file.id message).0,
    record {
      result = some (store_error_result s stamp file.id message).1;
      tampered = [];
      error = error;
    },
  )

  -- CheckLogFile from the lines on that were read.
  unfoldable pub compare_lines : Reads → Storage → Stamp → LogFile → List Line → Storage × Checked
  unfolding current_by_line find_tampered_entries save_result
  compare_lines reads s stamp file lines =
      elim (find_tampered_entries crypto key (current_by_line [] lines) reads file.id) [
        | err x ↦ (s, error_only x)
        | ok tampered ↦
            save_result s stamp (compared_result file.id (count_log_entries s file.id) tampered)
              tampered
      ]

  -- CheckLogFile
  unfoldable pub check_log_file :
      Reads → Stamp → Client → Server → Storage → LogFile → Storage × Checked
  unfolding inspect_log_file_identity has_changed read_log_lines compare_lines store_error_result
  check_log_file reads stamp client server s file = elim (client.connect server) [
    | err x ↦ refused s stamp file (connect_message server x) (some x)
    | ok u ↦
        if has_changed file (inspect_log_file_identity client server file)
        then refused s stamp file (changed_message file) none
        else elim (read_log_lines client file) [
          | err x ↦ refused s stamp file (read_message file x) (some x)
          | ok lines ↦ compare_lines reads s stamp file lines
        ]
  ]

  -- CheckServer, with the stamp of each file. The storage that the service reads is the one it writes.
  unfoldable pub check_server :
      (ℕ → Stamp)
      → Client
      → Server
      → Storage
      → List LogFile
      → Storage × List (Option CheckResult) × Option Error
  unfolding check_log_file
  check_server stamp client server s [] = (s, [], none)
  check_server stamp client server s (file ∷ files) =
      let (t, checked) = check_log_file (memory_reads s) (stamp 0) client server s file in
      let rest = check_server (λ i. stamp (suc i)) client server t files in
      elim checked.error [
        | some x ↦ (t, [], some x)
        | none ↦ (rest.0, checked.result ∷ rest.1, rest.2)
      ]
