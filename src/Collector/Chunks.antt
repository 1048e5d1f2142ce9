-- ===== src/Collector/Chunks.antt =====
-- internal/service/collector/service.go: buildChunks, hashEntryBatch, entriesForChunk and
-- splitEntryChunkBatches. The proofs are in the modules below.
pub mod Regroup
pub mod Filled
use log_integrity.Prelude.{
  ℕ, zero, suc, ◌+◌, Bool, ◌&&◌, ◌||◌, not, List, [], ◌∷◌, ◌++◌, Text, length, keep, last_or, ltb,
  is_empty, if◌then◌else◌,
}
use log_integrity.Prelude.Int.{ℤ, pos, pos_part, add64, ltb_ℤ}
use log_integrity.Models.{LogEntry, LogChunk, Time}
use log_integrity.Hasher.{Crypto}
use log_integrity.Increasing.{in_range}
use log_integrity.Collector.Options.{Options}
use log_integrity.Collector.Split.{split_batches, split_entries}

-- The hashes, each with a line feed behind it.
unfoldable pub join_hashes : List Text → Text
join_hashes [] = []
join_hashes (h ∷ hs) = h ++ 10 ∷ join_hashes hs

unfoldable pub hashes : List LogEntry → List Text
hashes [] = []
hashes (e ∷ es) = e.hash ∷ hashes es

-- Selects the entries whose lines lie in the chunk's bounds.
unfoldable pub entries_for_chunk : List LogEntry → LogChunk → List LogEntry
entries_for_chunk entries chunk =
    keep (in_range chunk.from_line_number chunk.to_line_number) entries

module _ (crypto : Crypto) where
  unfoldable pub hash_entry_batch : List LogEntry → Text
  unfolding join_hashes hashes
  hash_entry_batch entries = crypto.sha256 (join_hashes (hashes entries))

  -- The chunk of a batch that begins with `e`.
  unfoldable pub chunk_of : Options → Text → ℤ → Time → LogEntry → List LogEntry → LogChunk
  unfolding hash_entry_batch
  chunk_of options log_file_id number now e es = record {
    id = [];
    log_file_id = log_file_id;
    chunk_number = number;
    from_line_number = e.line_number;
    to_line_number = (last_or e es).line_number;
    from_byte_offset = pos 0;
    to_byte_offset = pos 0;
    entries_count = length (e ∷ es);
    hash = hash_entry_batch (e ∷ es);
    hash_algorithm = options.chunk_hash_algo;
    created_at = now;
  }

  -- `for i, batch := range …`, from the index `i`.
  chunk_loop : Options → Text → ℤ → Time → ℕ → List (List LogEntry) → List LogChunk
  unfolding chunk_of
  chunk_loop options log_file_id latest now i [] = []
  chunk_loop options log_file_id latest now i ([] ∷ batches) =
      chunk_loop options log_file_id latest now (suc i) batches
  chunk_loop options log_file_id latest now i ((e ∷ es) ∷ batches) =
      chunk_of options log_file_id (add64 (add64 latest (pos i)) (pos 1)) now e es
      ∷ chunk_loop options log_file_id latest now (suc i) batches

  -- `latest` is the number of the newest stored chunk, -1 if there is none.
  unfoldable pub build_chunks : Options → Text → ℤ → Time → List LogEntry → List LogChunk
  unfolding chunk_loop split_entries
  build_chunks options log_file_id latest now entries =
      chunk_loop options log_file_id latest now 0 (split_entries entries options.chunk_size)

pub record EntryChunkBatch : Type 0 where
  pub entries : List LogEntry
  pub chunks : List LogChunk

abbrev pub empty_batch : EntryChunkBatch
empty_batch = record { entries = []; chunks = [] }

-- The batch is flushed before it would pass the size; an empty one never is.
abbrev pub must_flush : ℤ → EntryChunkBatch → List LogEntry → Bool
must_flush size current entries =
    not (is_empty current.entries) && ltb_ℤ size (pos (length current.entries + length entries))

-- The loop over the chunks, with the batch that is being filled.
batch_loop : List LogEntry → ℤ → EntryChunkBatch → List LogChunk → List EntryChunkBatch
unfolding entries_for_chunk
batch_loop entries size current [] =
    if not (is_empty current.entries) || not (is_empty current.chunks) then current ∷ [] else []
batch_loop entries size current (chunk ∷ chunks) =
    let selected = entries_for_chunk entries chunk in
    let flush = must_flush size current selected in
    let base = if flush then empty_batch else current in
    let rest =
      batch_loop entries size
        (record { entries = base.entries ++ selected; chunks = base.chunks ++ chunk ∷ [] })
        chunks in
    if flush then current ∷ rest else rest

unfoldable pub split_entry_chunk_batches : List LogEntry → List LogChunk → ℤ → List EntryChunkBatch
unfolding batch_loop
split_entry_chunk_batches entries [] size = record { entries = entries; chunks = [] } ∷ []
split_entry_chunk_batches entries (chunk ∷ chunks) size =
    batch_loop entries size empty_batch (chunk ∷ chunks)
