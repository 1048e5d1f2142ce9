-- ===== src/Memory/LogFiles.antt =====
-- internal/repository/memory/logfiles.go, and DeleteServer of servers.go with the identifiers that
-- helpers.go collects: the operations that change log files, the cascading deletes included.
pub mod Cascade
pub mod Steps
use log_integrity.Prelude.{
  Bool, true, false, not, ◌&&◌, Option, none, some, List, [], ◌∷◌, Text, ◌==◌, text_eq, is_empty,
  nat_beq, if◌then◌else◌,
}
use log_integrity.Prelude.GoMap.{GoMap, get, put, delete, values}
use log_integrity.Prelude.Int.{ℤ}
use log_integrity.Models.{LogFile, Time}
use log_integrity.Repository.{not_found, conflict, Result, ok, err}
use log_integrity.Memory.{Storage}
use log_integrity.Memory.Entries.{
  exists, or_empty, by_line, delete_all, delete_log_entries_by_log_file,
}
use log_integrity.Memory.Chunks.{ids_of, chunk_ids, delete_log_chunks_by_log_file}

-- `s.logFilesByServer[serverID]`
abbrev pub by_path : Storage → Text → GoMap Text Text
by_path s server_id = or_empty (get s.log_files_by_server server_id)

abbrev pub completed_file : LogFile → Text → Time → LogFile
completed_file file id now = record file {
  id = id;
  created_at = if nat_beq file.created_at 0 then now else file.created_at;
}

-- CreateLogFile. The index of the server is there after the tests on the identifier, even if the path
-- is then refused; an empty one reads as none.
unfoldable pub create_log_file : Storage → Text → Time → LogFile → Storage × Result (Unit {0})
create_log_file s drawn now file =
    let id = if is_empty file.id then drawn else file.id in
    if not (exists (get s.servers file.server_id))
    then (s, err not_found)
    else if exists (get s.log_files id)
    then (s, err conflict)
    else if exists (get (by_path s file.server_id) file.path)
    then (s, err conflict)
    else (
      record s {
        log_files = put s.log_files id (completed_file file id now);
        log_files_by_server =
            put s.log_files_by_server file.server_id (put (by_path s file.server_id) file.path id);
      },
      ok tt,
    )

-- GetLogFileByID
unfoldable pub get_log_file_by_id : Storage → Text → Result LogFile
get_log_file_by_id s id = elim (get s.log_files id) [ none ↦ err not_found | some file ↦ ok file ]

abbrev pub taken_by_other : Option Text → Text → Bool
taken_by_other none id = false
taken_by_other (some other) id = not (other == id)

-- UpdateLogFile
unfoldable pub update_log_file : Storage → LogFile → Storage × Result (Unit {0})
update_log_file s file = elim (get s.log_files file.id) [
  | none ↦ (s, err not_found)
  | some current ↦
      let paths = by_path s file.server_id in
      let moved = not (current.path == file.path) in
      if not (current.server_id == file.server_id)
      then (s, err conflict)
      else if moved && taken_by_other (get paths file.path) file.id
      then (s, err conflict)
      else (
        record s {
          log_files = put s.log_files file.id file;
          log_files_by_server =
              put s.log_files_by_server file.server_id
                (if moved then put (delete paths current.path) file.path file.id else paths);
        },
        ok tt,
      )
]

-- UpdateLastScanned
unfoldable pub update_last_scanned : Storage → Text → Time → Storage × Result (Unit {0})
update_last_scanned s id now = elim (get s.log_files id) [
  | none ↦ (s, err not_found)
  | some file ↦ (
    record s { log_files = put s.log_files id (record file { last_scanned_at = some now }) },
    ok tt,
  )
]

abbrev pub check_ids : Storage → Text → List Text
check_ids s id = ids_of (get s.checks_by_log_file id)

-- Removes a path, and the index of the server with its last path.
abbrev forget_path : Storage → LogFile → GoMap Text (GoMap Text Text)
forget_path s file = elim (get s.log_files_by_server file.server_id) [
  | none ↦ s.log_files_by_server
  | some paths ↦
      let left = delete paths file.path in
      if is_empty left
      then delete s.log_files_by_server file.server_id
      else put s.log_files_by_server file.server_id left
]

-- deleteLogFileLocked: the entries, the chunks, the checks, the path and the file itself.
unfoldable pub delete_log_file_cascade : Storage → Text → Storage
unfolding delete_all
delete_log_file_cascade s id = elim (get s.log_files id) [
  | none ↦ s
  | some file ↦ record s {
    entries = delete_all s.entries (values (by_line s id));
    entries_by_log_file = delete s.entries_by_log_file id;
    chunks = delete_all s.chunks (chunk_ids s id);
    chunks_by_log_file = delete s.chunks_by_log_file id;
    checks = delete_all s.checks (check_ids s id);
    checks_by_log_file = delete s.checks_by_log_file id;
    log_files_by_server = forget_path s file;
    log_files = delete s.log_files id;
  }
]

-- DeleteLogFile
unfoldable pub delete_log_file : Storage → Text → Storage × Result (Unit {0})
unfolding delete_log_file_cascade
delete_log_file s id =
    if exists (get s.log_files id)
    then (delete_log_file_cascade s id, ok tt)
    else (s, err not_found)

unfoldable pub delete_log_files : Storage → List Text → Storage
unfolding delete_log_file_cascade
delete_log_files s [] = s
delete_log_files s (id ∷ ids) = delete_log_files (delete_log_file_cascade s id) ids

-- DeleteServer
unfoldable pub delete_server : Storage → Text → Storage × Result (Unit {0})
unfolding delete_log_files
delete_server s id =
    let left = delete_log_files s (values (by_path s id)) in
    if exists (get s.servers id)
    then (
      record left {
        servers = delete left.servers id;
        log_files_by_server = delete left.log_files_by_server id;
      },
      ok tt,
    )
    else (s, err not_found)
