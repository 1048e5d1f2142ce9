-- ===== src/Memory.antt =====
-- internal/repository/memory: the in-memory storage. An operation runs under the storage's mutex from
-- begin to end; identifiers that newID draws and the time are arguments. Models are values, so a
-- clone is the value itself.
pub mod Paginate
pub mod Entries
pub mod Index
pub mod Chunks
pub mod Answers
pub mod Batch
pub mod Servers
pub mod LogFiles
pub mod Checks
pub mod Listings
pub mod Registry
use log_integrity.Prelude.{List, [], Text}
use log_integrity.Prelude.GoMap.{GoMap}
use log_integrity.Prelude.Int.{ℤ}
use log_integrity.Repository.{Result, ok, err}
use log_integrity.Models.{Server, LogFile, LogEntry, LogChunk, CheckResult}

pub record Storage : Type 0 where
  pub servers : GoMap Text Server
  pub log_files : GoMap Text LogFile
  pub log_files_by_server : GoMap Text (GoMap Text Text)
  pub entries : GoMap Text LogEntry
  pub entries_by_log_file : GoMap Text (GoMap ℤ Text)
  pub chunks : GoMap Text LogChunk
  pub chunks_by_log_file : GoMap Text (List Text)
  pub checks : GoMap Text CheckResult
  pub checks_by_log_file : GoMap Text (List Text)

-- New
unfoldable pub new_storage : Storage
new_storage = record {
  servers = [];
  log_files = [];
  log_files_by_server = [];
  entries = [];
  entries_by_log_file = [];
  chunks = [];
  chunks_by_log_file = [];
  checks = [];
  checks_by_log_file = [];
}

-- A step, and what follows unless it returned an error.
abbrev pub after :
    {B : Type 0} → Storage × Result (Unit {0}) → (Storage → Storage × Result B) → Storage × Result B
after r next = elim r.1 [ err x ↦ (r.0, err x) | ok u ↦ next r.0 ]
