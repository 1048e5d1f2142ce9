-- ===== src/Collector/Collect.antt =====
-- internal/service/collector/service.go: CollectLogFile and CollectServer, over the in-memory storage.
pub mod Indexed
use log_integrity.Prelude.{
  ℕ, zero, suc, ◌+◌, Bool, true, false, not, ◌&&◌, ◌||◌, Option, none, some, List, [], ◌∷◌, map,
  Text, is_empty, length, last_or, if◌then◌else◌,
}
use log_integrity.Prelude.Int.{ℤ, pos, negsuc, leb_ℤ}
use log_integrity.Models.{Server, LogFile, LogEntry, LogChunk, Time}
use log_integrity.Hasher.{Crypto}
use log_integrity.Repository.{Error, not_found, conflict, failed, Result, ok, err}
use log_integrity.Memory.{Storage, after}
use log_integrity.Memory.Entries.{
  Draws, create_log_entries, get_max_line_number, delete_log_entries_by_log_file,
}
use log_integrity.Memory.Chunks.{
  create_log_chunks, get_latest_log_chunk, delete_log_chunks_by_log_file,
}
use log_integrity.Memory.Batch.{create_log_entries_with_chunks}
use log_integrity.Memory.LogFiles.{update_log_file}
use log_integrity.Collector.Options.{Options}
use log_integrity.Collector.Split.{split_entries, split_chunks}
use log_integrity.Collector.Chunks.{build_chunks, EntryChunkBatch, split_entry_chunk_batches}
use log_integrity.Collector.Source.{Line, new_entries, should_reset_collection}
use log_integrity.Collector.Remote.{
  Client, Inspected, inspect_log_file_identity, read_log_lines_after,
}

-- Service: its options, and whether it has a repository of chunks and one that writes batches.
pub record Service : Type 0 where
  pub options : Options
  pub has_chunks : Bool
  pub has_batch_writer : Bool

-- What one run reads of the outside: identifiers, and the time when chunks are built, when the storage
-- writes, and at the end.
pub record Inputs : Type 0 where
  pub draw : Draws
  pub draw_chunk : Draws
  pub built_at : Time
  pub stored_at : Time
  pub scanned_at : Time

-- resetLogFileState, on the storage.
unfoldable pub reset_log_file_state : Service → Storage → Text → Storage
unfolding delete_log_entries_by_log_file delete_log_chunks_by_log_file
reset_log_file_state service s id =
    let emptied = delete_log_entries_by_log_file s id in
    if service.has_chunks then delete_log_chunks_by_log_file emptied id else emptied

-- resetLogFileState, on the model.
abbrev pub restarted : LogFile → LogFile
restarted file = record file { last_line_number = pos 0; last_byte_offset = pos 0 }

-- The identifiers and times that are left after a batch.
abbrev pub left_inputs : Inputs → ℕ → ℕ → Inputs
left_inputs inputs entries chunks = record inputs {
  draw = λ i. inputs.draw (entries + i);
  draw_chunk = λ i. inputs.draw_chunk (chunks + i);
}

-- The first loop of saveEntriesAndChunks.
unfoldable pub save_batches : Inputs → Storage → List EntryChunkBatch → Storage × Result (Unit {0})
unfolding create_log_entries_with_chunks
save_batches inputs s [] = (s, ok tt)
save_batches inputs s (batch ∷ batches) =
    after
      (create_log_entries_with_chunks s inputs.draw inputs.draw_chunk inputs.stored_at
        (map some batch.entries) (map some batch.chunks))
      (λ t.
        save_batches (left_inputs inputs (length batch.entries) (length batch.chunks)) t batches)

-- The second loop.
unfoldable pub save_entries : Inputs → Storage → List (List LogEntry) → Storage × Result (Unit {0})
unfolding create_log_entries
save_entries inputs s [] = (s, ok tt)
save_entries inputs s (batch ∷ batches) =
    after (create_log_entries s inputs.draw inputs.stored_at batch)
      (λ t. save_entries (left_inputs inputs (length batch) 0) t batches)

-- The third loop.
unfoldable pub save_chunks : Inputs → Storage → List (List LogChunk) → Storage × Result (Unit {0})
unfolding create_log_chunks
save_chunks inputs s [] = (s, ok tt)
save_chunks inputs s (batch ∷ batches) =
    after (create_log_chunks s inputs.draw_chunk inputs.stored_at batch)
      (λ t. save_chunks (left_inputs inputs 0 (length batch)) t batches)

-- saveEntriesAndChunks
unfoldable pub save_entries_and_chunks :
    Service → Inputs → Storage → List LogEntry → List LogChunk → Storage × Result (Unit {0})
unfolding save_batches save_entries save_chunks split_entry_chunk_batches split_entries split_chunks
save_entries_and_chunks service inputs s entries chunks =
    if not (is_empty chunks) && service.has_batch_writer
    then save_batches inputs s (split_entry_chunk_batches entries chunks service.options.batch_size)
    else after (save_entries inputs s (split_entries entries service.options.batch_size)) (λ t.
      if is_empty chunks
      then (t, ok tt)
      else save_chunks inputs t (split_chunks chunks service.options.batch_size))

abbrev pub identified : LogFile → Result Inspected → LogFile
identified file (ok (identity, meta)) = record file { file_identity = identity; meta = meta }
identified file (err x) = file

-- The model that CollectLogFile stores at its end.
abbrev pub scanned : LogFile → List Line → Time → LogFile
scanned file [] now = record file { last_scanned_at = some now }
scanned file (line ∷ lines) now = record file {
  last_line_number = (last_or line lines).number;
  last_scanned_at = some now;
}

-- The end of CollectLogFile: the new number of entries, or the error of the update.
abbrev pub finish_run : Inputs → LogFile → List Line → ℕ → Storage → Storage × Result ℕ
finish_run inputs file lines count s =
    after (update_log_file s (scanned file lines inputs.scanned_at)) (λ t. (t, ok count))

-- `identityErr == nil && shouldResetCollection(logFile, identity)`
unfoldable pub must_reset : LogFile → Result Inspected → Bool
unfolding should_reset_collection
must_reset file (ok (identity, meta)) = should_reset_collection file.file_identity identity
must_reset file (err x) = false

module _ (crypto : Crypto) (service : Service) where
  -- The number of the newest chunk, -1 if there is none.
  unfoldable pub latest_chunk_number : Storage → Text → Result ℤ
  unfolding get_latest_log_chunk
  latest_chunk_number s id = elim (get_latest_log_chunk s id) [
    | ok chunk ↦ ok chunk.chunk_number
    | err Error.not_found ↦ ok (negsuc 0)
    | err Error.conflict ↦ err conflict
    | err (Error.failed t) ↦ err (failed t)
  ]

  -- buildChunksIfEnabled
  unfoldable pub build_chunks_if_enabled :
      Storage → Time → Text → List LogEntry → Result (List LogChunk)
  unfolding latest_chunk_number build_chunks
  build_chunks_if_enabled s now id entries =
      if not service.has_chunks || leb_ℤ service.options.chunk_size (pos 0)
      then ok []
      else elim (latest_chunk_number s id) [
        | err x ↦ err x
        | ok latest ↦ ok (build_chunks crypto service.options id latest now entries)
      ]

  -- The part of CollectLogFile that saves new entries.
  unfoldable pub save_new : Inputs → Storage → Text → List LogEntry → Storage × Result (Unit {0})
  unfolding build_chunks_if_enabled save_entries_and_chunks
  save_new inputs s id [] = (s, ok tt)
  save_new inputs s id (e ∷ es) = elim (build_chunks_if_enabled s inputs.built_at id (e ∷ es)) [
    | err x ↦ (s, err x)
    | ok chunks ↦ save_entries_and_chunks service inputs s (e ∷ es) chunks
  ]

  -- CollectLogFile from the lines on that were read.
  unfoldable pub store_lines :
      Inputs → Storage → LogFile → Result Inspected → Bool → ℤ → List Line → Storage × Result ℕ
  unfolding reset_log_file_state new_entries save_new update_log_file
  store_lines inputs s file inspected reset max_line lines =
      let base = if reset then reset_log_file_state service s file.id else s in
      let model = identified (if reset then restarted file else file) inspected in
      let entries = new_entries crypto service.options file.id max_line lines in
      after (save_new inputs base file.id entries) (finish_run inputs model lines (length entries))

  -- CollectLogFile
  unfoldable pub collect_log_file :
      Inputs → Client → Server → Storage → LogFile → Storage × Result ℕ
  unfolding inspect_log_file_identity must_reset get_max_line_number read_log_lines_after
      store_lines
  collect_log_file inputs client server s file =
      let inspected = inspect_log_file_identity client server file in
      let reset = must_reset file inspected in
      let max_line = if reset then pos 0 else get_max_line_number s file.id in
      elim (client.connect server) [
        | err x ↦ (s, err x)
        | ok u ↦ elim (read_log_lines_after client file max_line) [
          | err x ↦ (s, err x)
          | ok lines ↦ store_lines inputs s file inspected reset max_line lines
        ]
      ]

  -- CollectServer, with the inputs of each file and the total so far.
  unfoldable pub collect_server :
      (ℕ → Inputs) → Client → Server → Storage → List LogFile → ℕ → Storage × ℕ × Result (Unit {0})
  unfolding collect_log_file
  collect_server inputs client server s [] total = (s, total, ok tt)
  collect_server inputs client server s (file ∷ files) total =
      let (t, collected) = collect_log_file (inputs 0) client server s file in
      elim collected [
        | err x ↦ (t, total, err x)
        | ok count ↦ collect_server (λ i. inputs (suc i)) client server t files (total + count)
      ]
