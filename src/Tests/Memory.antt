-- ===== src/Tests/Memory.antt =====
-- A storage with one log file, one stored line, and pages of two entries.
use mathlib.Core.Path.{subst}
use log_integrity.Prelude.{
  ◌-◌, ◌^◌, ◌≡◌, ◌≢◌, ◌↔◌, refl, sym, ◌∙◌, true, Option, none, some, List, [], ◌∷◌, arith, Text,
  codes, text_eq,
}
use log_integrity.Prelude.Classes.{text_beq}
use log_integrity.Prelude.GoMap.{get, put}
use log_integrity.Prelude.Sort.{sort_by}
use log_integrity.Prelude.Int.{pos, int_eq}
use log_integrity.Models.{LogFile, LogEntry, LogChunk, LogType}
use log_integrity.Increasing.{IsIncreasing}
use log_integrity.Repository.{Error, err, ok, conflict}
use log_integrity.Integrity.Detect.{Answers}
use log_integrity.Memory.{Storage, new_storage}
use log_integrity.Memory.Paginate.{paginate, paginate_overflow}
use log_integrity.Memory.Entries.{validate_log_entry, store_log_entry, list_log_entries}
use log_integrity.Memory.Index.{IsIndexed, store_log_entry-IsIndexed}
use log_integrity.Memory.Chunks.{
  validate_log_chunk, store_log_chunk, create_log_chunks, create_log_chunks_partial,
}
use log_integrity.Memory.Answers.{memory_reads, memory_reads-Answers, list_log_entries-IsIncreasing}
use log_integrity.Memory.Batch.{create_log_entries_with_chunks, validate_log_entry_batch}
use log_integrity.Memory.Batch.Stored.{Unused, stored_ids, create_log_entries_with_chunks-IsWhole}
use log_integrity.Memory.LogFiles.{delete_log_file_cascade}
use log_integrity.Memory.LogFiles.Cascade.{delete_log_file_cascade-IsExact}
use log_integrity.Tests.Data.{entry, two_entries}

abbrev pub file : LogFile
file = record {
  id = codes "log";
  server_id = codes "s";
  path = codes "/var/log/syslog";
  log_type = LogType.syslog;
  file_identity = record {
    device_id = [];
    inode = [];
    volume_id = [];
    file_id = [];
    event_log = [];
    size_bytes = pos 0;
    mod_time_unix = pos 0;
  };
  meta = [];
  last_scanned_at = none;
  last_line_number = pos 0;
  last_byte_offset = pos 0;
  is_active = true;
  created_at = 1;
}

abbrev pub one_file : Storage
one_file = record new_storage { log_files = (codes "log", file) ∷ [] }

pub one_file-IsIndexed : IsIndexed one_file
unfolding new_storage get
one_file-IsIndexed = record {
  listed = λ f n id p. absurd (cc);
  indexed = λ id e p. absurd (cc);
  lines_once = λ f. tt;
}

abbrev one_line : Storage
one_line = store_log_entry one_file (codes "e1") 9 (entry 1 (codes "x"))

abbrev batch : List (Option LogEntry)
batch = some (entry 1 (codes "x")) ∷ []

batch_passes : validate_log_entry_batch one_file batch ≡ ok (entry 1 (codes "x") ∷ [])
unfolding validate_log_entry_batch validate_log_entry new_storage get text_beq
batch_passes = refl

batch-Unused :
    (es : List LogEntry)
    → validate_log_entry_batch one_file batch ≡ ok es
    → Unused one_file (stored_ids (λ i. codes "e") 9 es)
unfolding stored_ids new_storage get
batch-Unused es q =
    subst (λ xs. Unused one_file (stored_ids (λ i. codes "e") 9 xs)) (inj (sym batch_passes ∙ q))
      ((refl, tt), ((λ i. elim i [ ]), tt))
  where
    inj : {a b : List LogEntry} → ok a ≡ ok b → a ≡ b
    inj p = cc

create_log_entries_with_chunks-IsWhole_example :
    IsIndexed
      (create_log_entries_with_chunks one_file (λ i. codes "e") (λ i. codes "c") 9 batch []).0
    × ((x : Error)
        → (create_log_entries_with_chunks one_file (λ i. codes "e") (λ i. codes "c") 9 batch []).1
          ≡ err x
        → (create_log_entries_with_chunks one_file (λ i. codes "e") (λ i. codes "c") 9 batch []).0
          ≡ one_file)
create_log_entries_with_chunks-IsWhole_example =
    create_log_entries_with_chunks-IsWhole one_file (λ i. codes "e") (λ i. codes "c") 9 batch []
      one_file-IsIndexed batch-Unused

one_line-IsIndexed : IsIndexed one_line
unfolding new_storage get
one_line-IsIndexed =
    store_log_entry-IsIndexed one_file (codes "e1") 9 (entry 1 (codes "x")) one_file-IsIndexed refl
      refl

list_log_entries-IsIncreasing_example : IsIncreasing (list_log_entries one_line (codes "log"))
list_log_entries-IsIncreasing_example =
    list_log_entries-IsIncreasing one_line (codes "log") one_line-IsIndexed

memory_reads-Answers_example :
    Answers (memory_reads one_line) (codes "log") (list_log_entries one_line (codes "log"))
unfolding list_log_entries store_log_entry new_storage get put text_beq sort_by
memory_reads-Answers_example =
    memory_reads-Answers one_line (codes "log") one_line-IsIndexed (omega arith)

delete_log_file_cascade-IsExact_example :
    (get (delete_log_file_cascade one_line (codes "log")).log_files (codes "log") ≡ none)
    × ((id : Text) (e : LogEntry)
        → (get (delete_log_file_cascade one_line (codes "log")).entries id ≡ some e)
          ↔ ((get one_line.entries id ≡ some e) × (e.log_file_id ≢ codes "log")))
    × IsIndexed (delete_log_file_cascade one_line (codes "log"))
unfolding store_log_entry new_storage get text_beq
delete_log_file_cascade-IsExact_example =
    delete_log_file_cascade-IsExact one_line (codes "log") file one_line-IsIndexed refl

paginate_overflow_example : paginate two_entries (pos 1) (pos (2 ^ 63 - 1)) ≡ none
paginate_overflow_example =
    paginate_overflow two_entries 1 (2 ^ 63 - 1) (omega arith) (omega arith) (omega arith)
      (omega arith) (omega arith)

abbrev chunk : Text → LogChunk
chunk hash = record {
  id = [];
  log_file_id = codes "log";
  chunk_number = pos 0;
  from_line_number = pos 1;
  to_line_number = pos 1;
  from_byte_offset = pos 0;
  to_byte_offset = pos 0;
  entries_count = 1;
  hash = hash;
  hash_algorithm = codes "sha256";
  created_at = 5;
}

create_log_chunks_partial_example :
    create_log_chunks one_file (λ i. codes "c") 9 (chunk (codes "x") ∷ chunk (codes "y") ∷ [])
    ≡ (store_log_chunk one_file (codes "c") 9 (chunk (codes "x")), err conflict)
unfolding validate_log_chunk store_log_chunk new_storage get put text_beq
create_log_chunks_partial_example =
    create_log_chunks_partial one_file (λ i. codes "c") 9 (chunk (codes "x")) (chunk (codes "y"))
      refl refl refl
