-- ===== src/Memory/Batch.antt =====
-- internal/repository/memory/batch.go. A pointer of the batch that may be nil is an `Option`; the maps
-- of what was seen are lists.
pub mod Stored
pub mod Fresh
use log_integrity.Prelude.{
  ℕ, zero, suc, Bool, true, false, not, ◌&&◌, Option, none, some, List, [], ◌∷◌, Text, ◌==◌,
  text_eq, is_empty, any, if◌then◌else◌,
}
use log_integrity.Prelude.Int.{ℤ, int_eq}
use log_integrity.Models.{LogEntry, LogChunk, Time}
use log_integrity.Repository.{conflict, Result, ok, err, ◌>>=◌, ◌>>◌, fail_if}
use log_integrity.Memory.{Storage}
use log_integrity.Memory.Entries.{Draws, validate_log_entry, store_log_entries}
use log_integrity.Memory.Chunks.{validate_log_chunk, store_log_chunk}

-- entryLineKey and chunkNumberKey
abbrev pub Key : Type 0
Key = Text × ℤ

abbrev pub seen_key : List Key → Key → Bool
seen_key keys key = any (λ (k : Key). k.0 == key.0 && k.1 == key.1) keys

abbrev pub seen_id : List Text → Text → Bool
seen_id ids id = not (is_empty id) && any (λ i. i == id) ids

-- The loop of validateLogEntryBatchLocked.
unfoldable pub validate_entries :
    Storage → List Text → List Key → List (Option LogEntry) → Result (List LogEntry)
validate_entries s ids lines [] = ok []
validate_entries s ids lines (none ∷ entries) = err conflict
validate_entries s ids lines (some e ∷ entries) =
    let rest = validate_entries s (e.id ∷ ids) ((e.log_file_id, e.line_number) ∷ lines) entries in
    do
      validate_log_entry s e
      fail_if (seen_id ids e.id) conflict
      fail_if (seen_key lines (e.log_file_id, e.line_number)) conflict
      es ← rest
      ok (e ∷ es)

-- validateLogEntryBatchLocked; the batch that passes has no nil in it.
unfoldable pub validate_log_entry_batch : Storage → List (Option LogEntry) → Result (List LogEntry)
unfolding validate_entries
validate_log_entry_batch s entries = validate_entries s [] [] entries

-- The loop of validateLogChunkBatchLocked.
validate_chunk_loop :
    Storage → List Text → List Key → List (Option LogChunk) → Result (List LogChunk)
unfolding validate_log_chunk
validate_chunk_loop s ids numbers [] = ok []
validate_chunk_loop s ids numbers (none ∷ chunks) = err conflict
validate_chunk_loop s ids numbers (some c ∷ chunks) =
    let rest =
      validate_chunk_loop s (c.id ∷ ids) ((c.log_file_id, c.chunk_number) ∷ numbers) chunks in
    do
      validate_log_chunk s c
      fail_if (seen_id ids c.id) conflict
      fail_if (seen_key numbers (c.log_file_id, c.chunk_number)) conflict
      cs ← rest
      ok (c ∷ cs)

-- validateLogChunkBatchLocked
unfoldable pub validate_log_chunk_batch : Storage → List (Option LogChunk) → Result (List LogChunk)
unfolding validate_chunk_loop
validate_log_chunk_batch s chunks = validate_chunk_loop s [] [] chunks

unfoldable pub store_log_chunks : Storage → Draws → Time → List LogChunk → Storage
store_log_chunks s draw now [] = s
store_log_chunks s draw now (c ∷ cs) =
    store_log_chunks (store_log_chunk s (draw 0) now c) (λ i. draw (suc i)) now cs

-- CreateLogEntriesWithChunks
unfoldable pub create_log_entries_with_chunks :
    Storage
    → Draws
    → Draws
    → Time
    → List (Option LogEntry)
    → List (Option LogChunk)
    → Storage × Result (Unit {0})
unfolding validate_log_entry_batch validate_log_chunk_batch store_log_chunks
create_log_entries_with_chunks s draw draw_chunk now entries chunks =
    elim (validate_log_entry_batch s entries) [
      | err x ↦ (s, err x)
      | ok es ↦ elim (validate_log_chunk_batch s chunks) [
        | err x ↦ (s, err x)
        | ok cs ↦ (store_log_chunks (store_log_entries s draw now es) draw_chunk now cs, ok tt)
      ]
    ]
