-- ===== src/Collector/Collect/Indexed.antt =====
-- A collection keeps the index of the entries right, whatever it returns.
use log_integrity.Prelude.{
  ℕ, ◌≡◌, refl, sym, ap, ◌∙◌, Bool, true, false, not, ◌&&◌, ◌||◌, some, List, [], ◌∷◌, map, Text,
  is_empty, length, All, if◌then◌else◌, if_elim, arith,
}
use log_integrity.Prelude.GoMap.{GoMap}
use log_integrity.Prelude.Int.{ℤ, pos, leb_ℤ, ◌<ℤ◌}
use log_integrity.Models.{Server, LogFile, LogEntry, LogChunk, Time}
use log_integrity.Hasher.{Crypto}
use log_integrity.Repository.{Result, ok, Result-elim}
use log_integrity.Memory.{Storage, after}
use log_integrity.Memory.Entries.{Draws, get_max_line_number, delete_log_entries_by_log_file}
use log_integrity.Memory.Index.{IsIndexed}
use log_integrity.Memory.Index.Emptied.{
  same-IsIndexed, delete_log_entries_by_log_file-IsIndexed, delete_log_entries_by_log_file-unused,
  update_log_file-IsIndexed,
}
use log_integrity.Memory.Chunks.{delete_log_chunks_by_log_file}
use log_integrity.Memory.LogFiles.{update_log_file}
use log_integrity.Memory.Batch.Stored.{ok_inj}
use log_integrity.Memory.Batch.Fresh.{
  IsFresh, HasNoId, create_log_entries_with_chunks-Next, create_log_entries_with_chunks-kept,
}
use log_integrity.Collector.Chunks.{EntryChunkBatch, split_entry_chunk_batches}
use log_integrity.Collector.Chunks.Filled.{build_chunks-not_empty, split_entry_chunk_batches-All}
use log_integrity.Collector.Source.{Line, new_entries}
use log_integrity.Collector.Remote.{
  Client, Inspected, inspect_log_file_identity, read_log_lines_after,
}
use log_integrity.Collector.Collect.{
  Service, Inputs, left_inputs, save_batches, save_entries_and_chunks, latest_chunk_number,
  build_chunks_if_enabled, save_new, finish_run, scanned, identified, must_reset, restarted,
  store_lines, reset_log_file_state, collect_log_file,
}

-- A step that keeps the index right, and what follows it.
after-Right :
    {B : Type 0} (r : Storage × Result (Unit {0})) (next : Storage → Storage × Result B)
    → IsIndexed r.0
    → (r.1 ≡ ok tt → IsIndexed (next r.0).0)
    → IsIndexed (after r next).0
after-Right r next h k =
    Result-elim (λ (x : Storage × Result _). IsIndexed x.0) r.1 _ _ (λ x q. h) (λ u q. k q)

save_batches-Right :
    (inputs : Inputs) (s : Storage) (batches : List EntryChunkBatch)
    → IsIndexed s
    → IsFresh s inputs.draw
    → All (λ (b : EntryChunkBatch). All HasNoId b.entries) batches
    → IsIndexed (save_batches inputs s batches).0
unfolding save_batches
save_batches-Right inputs s [] h f n = h
save_batches-Right inputs s (b ∷ batches) h f n =
    after-Right _
      (λ t. save_batches (left_inputs inputs (length b.entries) (length b.chunks)) t batches)
      (create_log_entries_with_chunks-kept s inputs.draw inputs.draw_chunk inputs.stored_at
        b.entries (map some b.chunks) n.0 f h)
      (λ q.
        save_batches-Right (left_inputs inputs (length b.entries) (length b.chunks)) _ batches
          (create_log_entries_with_chunks-kept s inputs.draw inputs.draw_chunk inputs.stored_at
            b.entries (map some b.chunks) n.0 f h)
          (create_log_entries_with_chunks-Next s inputs.draw inputs.draw_chunk inputs.stored_at
            b.entries (map some b.chunks) n.0 f q)
          n.1)

new_entries-HasNoId :
    (crypto : Crypto) (service : Service) (id : Text) (max_line : ℤ) (lines : List Line)
    → All HasNoId (new_entries crypto service.options id max_line lines)
unfolding new_entries
new_entries-HasNoId crypto service id max_line [] = tt
new_entries-HasNoId crypto service id max_line (line ∷ lines) =
    if_elim (All HasNoId) (leb_ℤ line.number max_line) _ _
      (λ old. new_entries-HasNoId crypto service id max_line lines)
      (λ new. (refl, new_entries-HasNoId crypto service id max_line lines))

module _ (crypto : Crypto) (service : Service) (chunked : service.has_chunks ≡ true)
    (batched : service.has_batch_writer ≡ true) (sized : pos 0 <ℤ service.options.chunk_size) where
  filled :
      (s : Storage) (now : Time) (id : Text) (e : LogEntry) (es : List LogEntry)
      (chunks : List LogChunk)
      → build_chunks_if_enabled crypto service s now id (e ∷ es) ≡ ok chunks
      → is_empty chunks ≡ false
  unfolding build_chunks_if_enabled
  filled s now id e es chunks =
      if_elim (λ (r : Result (List LogChunk)). r ≡ ok chunks → is_empty chunks ≡ false)
        (not service.has_chunks || leb_ℤ service.options.chunk_size (pos 0)) _ _
        (λ q r. absurd (off service.has_chunks service.options.chunk_size chunked sized q))
        (λ q.
          Result-elim (λ (r : Result (List LogChunk)). r ≡ ok chunks → is_empty chunks ≡ false)
            (latest_chunk_number crypto service s id) _ _ (λ x p r. cc)
            (λ latest p r.
              ap is_empty (sym (ok_inj r))
              ∙ build_chunks-not_empty crypto service.options id latest now e es sized))
    where
      off : (a : Bool) (n : ℤ) → a ≡ true → pos 0 <ℤ n → (not a || leb_ℤ n (pos 0)) ≡ true → ⊥
      off a n p q r = ground arith

  save_new-Right :
      (inputs : Inputs) (s : Storage) (id : Text) (entries : List LogEntry)
      → IsIndexed s
      → IsFresh s inputs.draw
      → All HasNoId entries
      → IsIndexed (save_new crypto service inputs s id entries).0
  unfolding save_new save_entries_and_chunks build_chunks_if_enabled
  save_new-Right inputs s id [] h f n = h
  save_new-Right inputs s id (e ∷ es) h f n =
      Result-elim (λ (r : Storage × Result (Unit {0})). IsIndexed r.0)
        (build_chunks_if_enabled crypto service s inputs.built_at id (e ∷ es)) _ _ (λ x q. h)
        (λ chunks q.
          if_elim (λ (r : Storage × Result (Unit {0})). IsIndexed r.0)
            (not (is_empty chunks) && service.has_batch_writer) _ _
            (λ p.
              save_batches-Right inputs s
                (split_entry_chunk_batches (e ∷ es) chunks service.options.batch_size) h f
                (split_entry_chunk_batches-All HasNoId (e ∷ es) n service.options.batch_size
                  chunks))
            (λ p. absurd (
              both (is_empty chunks) service.has_batch_writer
                (filled s inputs.built_at id e es chunks q) batched p)))
    where
      both : (a b : Bool) → a ≡ false → b ≡ true → (not a && b) ≡ false → ⊥
      both a b p q r = ground arith

  base-Right :
      (s : Storage) (file : LogFile) (reset : Bool)
      → IsIndexed s
      → IsIndexed (if reset then reset_log_file_state service s file.id else s)
  unfolding reset_log_file_state delete_log_chunks_by_log_file
  base-Right s file reset h =
      if_elim IsIndexed reset _ _
        (λ q.
          if_elim IsIndexed service.has_chunks _ _
            (λ p.
              same-IsIndexed (delete_log_entries_by_log_file s file.id) _ refl refl
                (delete_log_entries_by_log_file-IsIndexed s file h))
            (λ p. delete_log_entries_by_log_file-IsIndexed s file h))
        (λ q. h)

  base-Fresh :
      (s : Storage) (file : LogFile) (reset : Bool) (draw : Draws)
      → IsFresh s draw
      → IsFresh (if reset then reset_log_file_state service s file.id else s) draw
  unfolding reset_log_file_state delete_log_chunks_by_log_file
  base-Fresh s file reset draw f =
      if_elim (λ (t : Storage). IsFresh t draw) reset _ _
        (λ q.
          if_elim (λ (t : Storage). IsFresh t draw) service.has_chunks _ _ (λ p. left) (λ p. left))
        (λ q. f)
    where
      left :
          {c : GoMap Text LogChunk} {d : GoMap Text (List Text)}
          → IsFresh
              (record (delete_log_entries_by_log_file s file.id) {
                chunks = c;
                chunks_by_log_file = d;
              })
              draw
      left = record {
        unused = λ i. delete_log_entries_by_log_file-unused s file.id (draw i) (f.unused i);
        once = f.once;
      }

  finish_run-Right :
      (inputs : Inputs) (file : LogFile) (lines : List Line) (count : ℕ) (s : Storage)
      → IsIndexed s
      → IsIndexed (finish_run inputs file lines count s).0
  finish_run-Right inputs file lines count s h =
      after-Right (update_log_file s (scanned file lines inputs.scanned_at)) (λ t. (t, ok count))
        (update_log_file-IsIndexed s _ h) (λ q. update_log_file-IsIndexed s _ h)

  store_lines-Right :
      (inputs : Inputs) (s : Storage) (file : LogFile) (inspected : Result Inspected) (reset : Bool)
      (max_line : ℤ) (lines : List Line)
      → IsIndexed s
      → IsFresh s inputs.draw
      → IsIndexed (store_lines crypto service inputs s file inspected reset max_line lines).0
  unfolding store_lines
  store_lines-Right inputs s file inspected reset max_line lines h f =
      after-Right (save_new crypto service inputs base file.id entries)
        (finish_run inputs model lines (length entries)) indexed
        (λ q. finish_run-Right inputs model lines (length entries) _ indexed)
    where
      base : Storage
      base = if reset then reset_log_file_state service s file.id else s

      model : LogFile
      model = identified (if reset then restarted file else file) inspected

      entries : List LogEntry
      entries = new_entries crypto service.options file.id max_line lines

      indexed : IsIndexed (save_new crypto service inputs base file.id entries).0
      indexed =
          save_new-Right inputs base file.id entries (base-Right s file reset h)
            (base-Fresh s file reset inputs.draw f)
            (new_entries-HasNoId crypto service file.id max_line lines)

  -- If the service has its repository of chunks, one that writes batches, and a positive chunk
  -- size, and the drawn identifiers of entries are unused and differ, then CollectLogFile leaves
  -- the index of the entries right if it was right, whatever the server answers and whatever it
  -- returns.
  pub collect_log_file-IsIndexed :
      (inputs : Inputs) (client : Client) (server : Server) (s : Storage) (file : LogFile)
      → IsFresh s inputs.draw
      → IsIndexed s
      → IsIndexed (collect_log_file crypto service inputs client server s file).0
  unfolding collect_log_file
  collect_log_file-IsIndexed inputs client server s file f h =
      Result-elim (λ (r : Storage × Result ℕ). IsIndexed r.0) (client.connect server) _ _ (λ x q. h)
        (λ u q.
          Result-elim (λ (r : Storage × Result ℕ). IsIndexed r.0)
            (read_log_lines_after client file max_line) _ _ (λ x p. h)
            (λ lines p. store_lines-Right inputs s file inspected reset max_line lines h f))
    where
      inspected : Result Inspected
      inspected = inspect_log_file_identity client server file

      reset : Bool
      reset = must_reset file inspected

      max_line : ℤ
      max_line = if reset then pos 0 else get_max_line_number s file.id
