-- ===== src/Memory/Entries.antt =====
-- internal/repository/memory/entries.go.
use log_integrity.Prelude.{
  ℕ, suc, Bool, true, false, not, ◌&&◌, Option, none, some, List, [], ◌∷◌, Text, text_eq, nat_beq,
  if◌then◌else◌, is_empty, length, keep,
}
use log_integrity.Prelude.GoMap.{GoMap, get, put, delete, keys, values}
use log_integrity.Prelude.Sort.{sort_by}
use log_integrity.Prelude.Int.{ℤ, pos, int_eq, ltb_ℤ}
use log_integrity.Models.{LogEntry, Time}
use log_integrity.Increasing.{in_range}
use log_integrity.Repository.{not_found, conflict, Result, ok, err, ◌>>◌, fail_if}
use log_integrity.Memory.{Storage}

abbrev pub exists : {V : Type 0} → Option V → Bool
exists none = false
exists (some v) = true

-- Reading a nil map finds nothing.
abbrev pub or_empty : {K V : Type 0} → Option (GoMap K V) → GoMap K V
or_empty none = []
or_empty (some m) = m

-- `s.entriesByLogFile[logFileID]`
abbrev pub by_line : Storage → Text → GoMap ℤ Text
by_line s log_file_id = or_empty (get s.entries_by_log_file log_file_id)

-- validateLogEntryLocked
unfoldable pub validate_log_entry : Storage → LogEntry → Result (Unit {0})
validate_log_entry s e = do
  fail_if (not (exists (get s.log_files e.log_file_id))) not_found
  fail_if (not (is_empty e.id) && exists (get s.entries e.id)) conflict
  fail_if (exists (get (by_line s e.log_file_id) e.line_number)) conflict

-- The entry with the identifier and the time that are filled in.
abbrev pub completed : LogEntry → Text → Time → LogEntry
completed e drawn now = record e {
  id = if is_empty e.id then drawn else e.id;
  collected_at = if nat_beq e.collected_at 0 then now else e.collected_at;
}

-- storeLogEntryLocked
unfoldable pub store_log_entry : Storage → Text → Time → LogEntry → Storage
store_log_entry s drawn now e =
    let done = completed e drawn now in
    record s {
      entries = put s.entries done.id done;
      entries_by_log_file =
          put s.entries_by_log_file e.log_file_id
            (put (by_line s e.log_file_id) e.line_number done.id);
    }

-- CreateLogEntry
unfoldable pub create_log_entry : Storage → Text → Time → LogEntry → Storage × Result (Unit {0})
unfolding validate_log_entry store_log_entry
create_log_entry s drawn now e = elim (validate_log_entry s e) [
  | err x ↦ (s, err x)
  | ok u ↦ (store_log_entry s drawn now e, ok tt)
]

validate_all : Storage → List LogEntry → Result (Unit {0})
unfolding validate_log_entry
validate_all s [] = ok tt
validate_all s (e ∷ es) = validate_log_entry s e >> validate_all s es

-- The identifiers that newID draws, one for each entry.
abbrev pub Draws : Type 0
Draws = ℕ → Text

unfoldable pub store_log_entries : Storage → Draws → Time → List LogEntry → Storage
unfolding store_log_entry
store_log_entries s draw now [] = s
store_log_entries s draw now (e ∷ es) =
    store_log_entries (store_log_entry s (draw 0) now e) (λ i. draw (suc i)) now es

-- CreateLogEntries
unfoldable pub create_log_entries :
    Storage → Draws → Time → List LogEntry → Storage × Result (Unit {0})
unfolding validate_all store_log_entries
create_log_entries s draw now entries = elim (validate_all s entries) [
  | err x ↦ (s, err x)
  | ok u ↦ (store_log_entries s draw now entries, ok tt)
]

-- The models of the identifiers of an index; the code takes it that each is stored.
abbrev pub found_entries : GoMap Text LogEntry → List Text → List LogEntry
found_entries entries [] = []
found_entries entries (id ∷ ids) =
    let rest = found_entries entries ids in
    elim (get entries id) [ none ↦ rest | some e ↦ e ∷ rest ]

abbrev pub line_less : LogEntry → LogEntry → Bool
line_less a b = ltb_ℤ a.line_number b.line_number

-- listLogEntriesLocked
unfoldable pub list_log_entries : Storage → Text → List LogEntry
list_log_entries s log_file_id =
    sort_by line_less (found_entries s.entries (values (by_line s log_file_id)))

-- GetLogEntryByLine
unfoldable pub get_log_entry_by_line : Storage → Text → ℤ → Result LogEntry
get_log_entry_by_line s log_file_id line = elim (get (by_line s log_file_id) line) [
  | none ↦ err not_found
  | some id ↦ elim (get s.entries id) [ none ↦ err not_found | some e ↦ ok e ]
]

-- ListLogEntriesByLineRange
unfoldable pub list_log_entries_by_line_range : Storage → Text → ℤ → ℤ → List LogEntry
unfolding list_log_entries
list_log_entries_by_line_range s log_file_id from_line to_line =
    keep (in_range from_line to_line) (list_log_entries s log_file_id)

max_line_from : ℤ → List ℤ → ℤ
max_line_from m [] = m
max_line_from m (n ∷ ns) = max_line_from (if ltb_ℤ m n then n else m) ns

-- GetMaxLineNumber
unfoldable pub get_max_line_number : Storage → Text → ℤ
unfolding max_line_from
get_max_line_number s log_file_id = max_line_from (pos 0) (keys (by_line s log_file_id))

-- CountLogEntries
unfoldable pub count_log_entries : Storage → Text → ℕ
count_log_entries s log_file_id = length (by_line s log_file_id)

unfoldable pub delete_all : {V : Type 0} → GoMap Text V → List Text → GoMap Text V
delete_all m [] = m
delete_all m (id ∷ ids) = delete_all (delete m id) ids

-- DeleteLogEntriesByLogFile
unfoldable pub delete_log_entries_by_log_file : Storage → Text → Storage
unfolding delete_all
delete_log_entries_by_log_file s log_file_id = record s {
  entries = delete_all s.entries (values (by_line s log_file_id));
  entries_by_log_file = delete s.entries_by_log_file log_file_id;
}
