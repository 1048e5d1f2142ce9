-- ===== src/Collector/Chunks/Regroup.antt =====
-- The batches that are written together: their entries are the collected entries in order, their
-- chunks are the built chunks, and none is larger than the batch size.
use log_integrity.Prelude.{
  ℕ, suc, ◌≤◌, ◌<◌, ◌≡◌, refl, sym, ap, ◌∙◌, inl, inr, false, ◌||◌, not, List, [], ◌∷◌, ◌++◌, arith,
  All, Text, length, length-append, concat, last_or, is_empty, if◌then◌else◌, Bool-cases, keep, ap₂,
}
use mathlib.Core.List.{append-nil, append_assoc}
use mathlib.Core.Path.{subst}
use log_integrity.Prelude.Int.{ℤ, pos, pos_part, ◌≤ℤ◌, ◌<ℤ◌}
use log_integrity.Models.{LogEntry, LogChunk, Time}
use log_integrity.Hasher.{Crypto}
use log_integrity.Increasing.{IsIncreasing, keep-in_range, in_range}
use log_integrity.Collector.Options.{Options, normalize_options, normalize_options_bounds}
use log_integrity.Collector.Split.{
  IsBatch, split_batches, split_batches_sizes, concat-split_batches,
}
use log_integrity.Collector.Chunks.{
  entries_for_chunk, chunk_loop, build_chunks, EntryChunkBatch, empty_batch, must_flush, batch_loop,
  split_entry_chunk_batches,
}

unfoldable pub batch_entries : List EntryChunkBatch → List LogEntry
batch_entries [] = []
batch_entries (b ∷ bs) = b.entries ++ batch_entries bs

unfoldable pub batch_chunks : List EntryChunkBatch → List LogChunk
batch_chunks [] = []
batch_chunks (b ∷ bs) = b.chunks ++ batch_chunks bs

-- What the chunks select, one after the other.
selected_entries : List LogEntry → List LogChunk → List LogEntry
selected_entries entries [] = []
selected_entries entries (c ∷ cs) = entries_for_chunk entries c ++ selected_entries entries cs

batch_entries-batch_loop :
    (entries : List LogEntry) (size : ℤ) (current : EntryChunkBatch) (chunks : List LogChunk)
    → batch_entries (batch_loop entries size current chunks)
      ≡ current.entries ++ selected_entries entries chunks
unfolding batch_loop batch_entries selected_entries
batch_entries-batch_loop entries size current [] = last current
  where
    last :
        (c : EntryChunkBatch)
        → batch_entries (if not (is_empty c.entries) || not (is_empty c.chunks) then c ∷ [] else [])
          ≡ c.entries ++ []
    last c = ground (arith, append-nil c.entries)
batch_entries-batch_loop entries size current (c ∷ cs) =
    elim (Bool-cases (must_flush size current (entries_for_chunk entries c))) [
      | inl flush ↦ rw flush (
          ap (λ t. current.entries ++ t)
            (batch_entries-batch_loop entries size
              (record { entries = entries_for_chunk entries c; chunks = c ∷ [] }) cs))
      | inr stay ↦ rw stay (
          batch_entries-batch_loop entries size
            (record {
              entries = current.entries ++ entries_for_chunk entries c;
              chunks = current.chunks ++ c ∷ [];
            })
            cs
          ∙ append_assoc current.entries (entries_for_chunk entries c)
              (selected_entries entries cs))
    ]

batch_chunks-batch_loop :
    (entries : List LogEntry) (size : ℤ) (current : EntryChunkBatch) (chunks : List LogChunk)
    → batch_chunks (batch_loop entries size current chunks) ≡ current.chunks ++ chunks
unfolding batch_loop batch_chunks
batch_chunks-batch_loop entries size current [] = last current
  where
    last :
        (c : EntryChunkBatch)
        → batch_chunks (if not (is_empty c.entries) || not (is_empty c.chunks) then c ∷ [] else [])
          ≡ c.chunks ++ []
    last c = ground (arith, append-nil c.chunks)
batch_chunks-batch_loop entries size current (c ∷ cs) =
    elim (Bool-cases (must_flush size current (entries_for_chunk entries c))) [
      | inl flush ↦ rw flush (
          ap (λ t. current.chunks ++ t)
            (batch_chunks-batch_loop entries size
              (record { entries = entries_for_chunk entries c; chunks = c ∷ [] }) cs))
      | inr stay ↦ rw stay (
          batch_chunks-batch_loop entries size
            (record {
              entries = current.entries ++ entries_for_chunk entries c;
              chunks = current.chunks ++ c ∷ [];
            })
            cs
          ∙ append_assoc current.chunks (c ∷ []) cs)
    ]

-- A batch holds at most `size` entries.
abbrev pub Fits : ℤ → EntryChunkBatch → Type 0
Fits size b = length b.entries ≤ pos_part size

abbrev Selects : List LogEntry → ℤ → LogChunk → Type 0
Selects entries size c = length (entries_for_chunk entries c) ≤ pos_part size

batch_loop_sizes :
    (entries : List LogEntry) (size : ℤ) (current : EntryChunkBatch) (chunks : List LogChunk)
    → pos 0 <ℤ size
    → All (Selects entries size) chunks
    → Fits size current
    → All (Fits size) (batch_loop entries size current chunks)
unfolding batch_loop
batch_loop_sizes entries size current [] p h k = last current k
  where
    last :
        (c : EntryChunkBatch)
        → Fits size c
        → All
            (Fits size)
            (if not (is_empty c.entries) || not (is_empty c.chunks) then c ∷ [] else [])
    last c k = ground arith
batch_loop_sizes entries size current (c ∷ cs) p h k =
    elim (Bool-cases (must_flush size current (entries_for_chunk entries c))) [
      | inl flush ↦ rw flush (
        k,
        batch_loop_sizes entries size
            (record { entries = entries_for_chunk entries c; chunks = c ∷ [] }) cs p h.1 h.0,
      )
      | inr stay ↦ rw stay (
          batch_loop_sizes entries size
            (record {
              entries = current.entries ++ entries_for_chunk entries c;
              chunks = current.chunks ++ c ∷ [];
            })
            cs p h.1 (room current (entries_for_chunk entries c) size p h.0 stay))
    ]
  where
    room :
        (b : EntryChunkBatch) (es : List LogEntry) (n : ℤ)
        → pos 0 <ℤ n
        → length es ≤ pos_part n
        → must_flush n b es ≡ false
        → length (b.entries ++ es) ≤ pos_part n
    room b es n p h k = ground (arith, length-append b.entries es)

module _ (crypto : Crypto) (options : Options) (id : Text) (latest : ℤ) (now : Time) where
  chunk_loop-Selects :
      (entries before : List LogEntry) (i : ℕ) (batches : List (List LogEntry))
      → entries ≡ before ++ concat batches
      → IsIncreasing entries
      → All (IsBatch (pos_part options.chunk_size)) batches
      → (selected_entries entries (chunk_loop crypto options id latest now i batches)
          ≡ concat batches)
        × All
            (Selects entries options.chunk_size)
            (chunk_loop crypto options id latest now i batches)
  unfolding chunk_loop selected_entries entries_for_chunk
  chunk_loop-Selects entries before i [] q h k = (refl, tt)
  chunk_loop-Selects entries before i ([] ∷ bs) q h k =
      chunk_loop-Selects entries before (suc i) bs q h k.1
  chunk_loop-Selects entries before i ((e ∷ es) ∷ bs) q h k =
      let rest =
        chunk_loop-Selects entries (before ++ (e ∷ es)) (suc i) bs
          (q ∙ sym (append_assoc before (e ∷ es) (concat bs))) h k.1 in
      (
        ap₂ (λ u v. u ++ v) here rest.0,
        (subst (λ t. length t ≤ pos_part options.chunk_size) (sym here) k.0.1, rest.1),
      )
    where
      here : keep (in_range e.line_number (last_or e es).line_number) entries ≡ e ∷ es
      here =
          ap (keep (in_range e.line_number (last_or e es).line_number)) q
          ∙ keep-in_range before e es (concat bs) (subst IsIncreasing q h)

  build_chunks-Selects :
      (entries : List LogEntry)
      → pos 0 <ℤ options.chunk_size
      → 0 < length entries
      → IsIncreasing entries
      → (selected_entries entries (build_chunks crypto options id latest now entries) ≡ entries)
        × All
            (Selects entries options.chunk_size)
            (build_chunks crypto options id latest now entries)
  unfolding build_chunks
  build_chunks-Selects entries p n h =
      let r =
        chunk_loop-Selects entries [] 0 (split_batches entries options.chunk_size)
          (sym (concat-split_batches entries options.chunk_size)) h
          (split_batches_sizes entries options.chunk_size p n) in
      (r.0 ∙ concat-split_batches entries options.chunk_size, r.1)

All-Selects-weaken :
    (entries : List LogEntry) (n m : ℤ) (chunks : List LogChunk)
    → pos 0 <ℤ n
    → n ≤ℤ m
    → All (Selects entries n) chunks
    → All (Selects entries m) chunks
All-Selects-weaken entries n m [] p q h = tt
All-Selects-weaken entries n m (c ∷ cs) p q h =
    (wider n m p q h.0, All-Selects-weaken entries n m cs p q h.1)
  where
    wider : (n m : ℤ) → pos 0 <ℤ n → n ≤ℤ m → Selects entries n c → Selects entries m c
    wider n m p q h = ground arith

module _ (crypto : Crypto) (raw : Options) (id : Text) (latest : ℤ) (now : Time)
    (entries : List LogEntry) (some_new : 0 < length entries)
    (increasing : IsIncreasing entries) where
  -- The chunks of the new entries, and the batches in which both are written.
  abbrev pub built : List LogChunk
  built = build_chunks crypto (normalize_options raw) id latest now entries

  abbrev pub batches : List EntryChunkBatch
  batches = split_entry_chunk_batches entries built (normalize_options raw).batch_size

  chunk_positive : pos 0 <ℤ (normalize_options raw).chunk_size
  chunk_positive = (normalize_options_bounds raw).0

  selects :
      (selected_entries entries built ≡ entries)
      × All (Selects entries (normalize_options raw).chunk_size) built
  selects =
      build_chunks-Selects crypto (normalize_options raw) id latest now entries chunk_positive
        some_new increasing

  -- For at least one new entry, the entries in increasing order of their lines, at whatever
  -- configured sizes, the batches that are written hold the entries in order and the built chunks
  -- in order, nothing lost or repeated, and no batch holds more entries than the batch size.
  pub regroup :
      (batch_entries batches ≡ entries)
      × (batch_chunks batches ≡ built)
      × All (Fits (normalize_options raw).batch_size) batches
  unfolding split_entry_chunk_batches batch_entries batch_chunks selected_entries
  regroup = go built selects
    where
      size : ℤ
      size = (normalize_options raw).batch_size

      bounds :
          (pos 0 <ℤ (normalize_options raw).chunk_size)
          × ((normalize_options raw).chunk_size ≤ℤ size)
      bounds = ((normalize_options_bounds raw).0, (normalize_options_bounds raw).1)

      go :
          (chunks : List LogChunk)
          → (selected_entries entries chunks ≡ entries)
            × All (Selects entries (normalize_options raw).chunk_size) chunks
          → (batch_entries
                (split_entry_chunk_batches entries chunks (normalize_options raw).batch_size)
              ≡ entries)
            × (batch_chunks
                  (split_entry_chunk_batches entries chunks (normalize_options raw).batch_size)
                ≡ chunks)
            × All
                (Fits (normalize_options raw).batch_size)
                (split_entry_chunk_batches entries chunks (normalize_options raw).batch_size)
      go [] (q, h) = absurd (omega (arith, subst (λ t. 0 < length t) (sym q) some_new))
      go (c ∷ cs) (q, h) = (
        batch_entries-batch_loop entries size empty_batch (c ∷ cs) ∙ q,
        batch_chunks-batch_loop entries size empty_batch (c ∷ cs),
        batch_loop_sizes entries size empty_batch (c ∷ cs) (omega (arith, bounds.0, bounds.1))
            (All-Selects-weaken entries (normalize_options raw).chunk_size size (c ∷ cs) bounds.0
              bounds.1 h)
            (omega arith),
      )
