-- ===== src/Collector/Chunks/Filled.antt =====
-- For new entries there is a chunk, and the batches hold no entries but those.
use log_integrity.Prelude.{
  ◌≡◌, refl, Bool, true, false, List, [], ◌∷◌, ◌++◌, Text, arith, All, All-append, All-In, In-All,
  In-keep_inv, concat, is_empty, if◌then◌else◌, if_elim,
}
use log_integrity.Prelude.Int.{ℤ, pos, pos_part, ◌<ℤ◌}
use log_integrity.Models.{LogEntry, LogChunk, Time}
use log_integrity.Hasher.{Crypto}
use log_integrity.Increasing.{in_range}
use log_integrity.Collector.Options.{Options}
use log_integrity.Collector.Split.{
  split_batches, split_entries, concat-split_batches, split_batches_sizes, IsBatch,
}
use log_integrity.Collector.Chunks.{
  build_chunks, chunk_loop, EntryChunkBatch, empty_batch, must_flush, entries_for_chunk, batch_loop,
  split_entry_chunk_batches,
}

pub build_chunks-not_empty :
    (crypto : Crypto) (options : Options) (id : Text) (latest : ℤ) (now : Time) (e : LogEntry)
    (es : List LogEntry)
    → pos 0 <ℤ options.chunk_size
    → is_empty (build_chunks crypto options id latest now (e ∷ es)) ≡ false
unfolding build_chunks chunk_loop split_entries
build_chunks-not_empty crypto options id latest now e es p =
    go (split_batches (e ∷ es) options.chunk_size)
      (concat-split_batches (e ∷ es) options.chunk_size)
      (split_batches_sizes (e ∷ es) options.chunk_size p (omega arith))
  where
    go :
        (bs : List (List LogEntry))
        → concat bs ≡ e ∷ es
        → All (IsBatch (pos_part options.chunk_size)) bs
        → is_empty (chunk_loop crypto options id latest now 0 bs) ≡ false
    go [] q h = cc
    go ([] ∷ bs) q h = ground (arith, h.0.0)
    go ((x ∷ xs) ∷ bs) q h = refl

module _ (P : LogEntry → Type 0) (entries : List LogEntry) (h : All P entries) (size : ℤ) where
  selected-All : (chunk : LogChunk) → All P (entries_for_chunk entries chunk)
  unfolding entries_for_chunk
  selected-All chunk = In-All P _ (λ e i.
      All-In P e entries h
        (In-keep_inv (in_range chunk.from_line_number chunk.to_line_number) e entries i).0)

  batch_loop-All :
      (current : EntryChunkBatch) (chunks : List LogChunk)
      → All P current.entries
      → All (λ (b : EntryChunkBatch). All P b.entries) (batch_loop entries size current chunks)
  unfolding batch_loop
  batch_loop-All current [] k =
      if_elim (All (λ (b : EntryChunkBatch). All P b.entries)) _ (current ∷ []) [] (λ q. (k, tt))
        (λ q. tt)
  batch_loop-All current (chunk ∷ chunks) k =
      go (must_flush size current (entries_for_chunk entries chunk))
        (λ next. batch_loop-All next chunks)
    where
      go :
          (flush : Bool)
          → ((next : EntryChunkBatch)
              → All P next.entries
              → All
                  (λ (b : EntryChunkBatch). All P b.entries)
                  (batch_loop entries size next chunks))
          → let base = if flush then empty_batch else current in
            let rest =
              batch_loop entries size
                (record {
                  entries = base.entries ++ entries_for_chunk entries chunk;
                  chunks = base.chunks ++ chunk ∷ [];
                })
                chunks in
            All (λ (b : EntryChunkBatch). All P b.entries) (if flush then current ∷ rest else rest)
      go true ih = (k, ih _ (All-append P [] _ tt (selected-All chunk)))
      go false ih = ih _ (All-append P current.entries _ k (selected-All chunk))

  pub split_entry_chunk_batches-All :
      (chunks : List LogChunk)
      → All
          (λ (b : EntryChunkBatch). All P b.entries)
          (split_entry_chunk_batches entries chunks size)
  unfolding split_entry_chunk_batches
  split_entry_chunk_batches-All [] = (h, tt)
  split_entry_chunk_batches-All (chunk ∷ chunks) = batch_loop-All empty_batch (chunk ∷ chunks) tt
