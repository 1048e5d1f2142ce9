-- ===== src/Integrity.antt =====
-- internal/service/integrity/service.go: the comparison of stored hashes with the current lines.
-- A repository stands behind an interface; the proofs are in the modules below.
pub mod Compare
pub mod Append
pub mod Covered
pub mod Detect
pub mod Exact
pub mod Check
use mathlib.Core.Option
use log_integrity.Prelude.{
  ℕ, ◌+◌, ◌-◌, ◌≡◌, Bool, true, false, ◌&&◌, ◌||◌, not, Option, none, some, List, [], ◌∷◌, ◌++◌,
  Text, length, ltb, nat_beq, ◌==◌, text_eq, if◌then◌else◌, contains, add_new,
}
use log_integrity.Prelude.GoMap.{GoMap, get}
use log_integrity.Prelude.Sort.{sort_by}
use log_integrity.Prelude.Int.{ℤ, pos, int_eq, ltb_ℤ, beq_ℤ}
use log_integrity.Models.{LogEntry, LogChunk, TamperedEntry}
use log_integrity.Hasher.{Crypto, hash_string}
use log_integrity.Repository.{Result, ok, ◌>>=◌}
use log_integrity.Collector.Chunks.{join_hashes}

-- What the service reads from a repository.
pub record Reads : Type 0 where
  pub list_log_entries : Text → Result (List LogEntry)
  pub list_log_entries_by_line_range : Text → ℤ → ℤ → Result (List LogEntry)
  pub count_log_entries : Text → Result ℕ
  -- `none`: the service runs without chunk storage.
  pub list_log_chunks : Option (Text → Result (List LogChunk))

-- The order of the chunks: by first line, then by number.
abbrev pub chunk_less : LogChunk → LogChunk → Bool
chunk_less a b =
    if beq_ℤ a.from_line_number b.from_line_number
    then ltb_ℤ a.chunk_number b.chunk_number
    else ltb_ℤ a.from_line_number b.from_line_number

-- appendUniqueTampered: the found entries, and the lines already reported.
pub record Found : Type 0 where
  pub tampered : List TamperedEntry
  pub seen : List ℤ

abbrev pub found_none : Found
found_none = record { tampered = []; seen = [] }

unfoldable pub append_unique_tampered : Found → List TamperedEntry → Found
append_unique_tampered found [] = found
append_unique_tampered found (item ∷ items) =
    append_unique_tampered
      (if contains found.seen item.line_number then found else record {
        tampered = found.tampered ++ item ∷ [];
        seen = add_new item.line_number found.seen;
      })
      items

-- The lines of stored entries that a chunk covered.
unfoldable pub cover : List ℤ → List LogEntry → List ℤ
cover covered [] = covered
cover covered (e ∷ es) = cover (add_new e.line_number covered) es

unfoldable pub uncovered : List ℤ → List LogEntry → List LogEntry
uncovered covered [] = []
uncovered covered (e ∷ es) =
    let rest = uncovered covered es in if contains covered e.line_number then rest else e ∷ rest

module _ (crypto : Crypto) (key : Text) (current : GoMap ℤ Text) where
  -- The report on one stored entry, if its line is gone or hashes to another value.
  unfoldable pub compare_entry : LogEntry → Option TamperedEntry
  compare_entry e = elim (get current e.line_number) [
    | none ↦ some (record {
      line_number = e.line_number;
      stored_hash = e.hash;
      current_hash = [];
      current_content = [];
    })
    | some content ↦
        if hash_string crypto content key == e.hash
        then none
        else some (record {
          line_number = e.line_number;
          stored_hash = e.hash;
          current_hash = hash_string crypto content key;
          current_content = content;
        })
  ]

  unfoldable pub compare_stored_entries : List LogEntry → List TamperedEntry
  unfolding compare_entry
  compare_stored_entries [] = []
  compare_stored_entries (e ∷ es) =
      let rest = compare_stored_entries es in
      elim (compare_entry e) [ none ↦ rest | some t ↦ t ∷ rest ]

  -- The hashes of the current lines at the stored entries; `none` if a line is gone.
  unfoldable pub current_hashes : List LogEntry → Option (List Text)
  current_hashes [] = some []
  current_hashes (e ∷ es) =
      let rest = current_hashes es in
      elim (get current e.line_number) [
        | none ↦ none
        | some content ↦ Option.map (λ hs. hash_string crypto content key ∷ hs) rest
      ]

  -- hashCurrentChunk, on the entries that the repository lists in the chunk's range.
  unfoldable pub hash_current_chunk : LogChunk → List LogEntry → Option Text
  unfolding current_hashes
  hash_current_chunk chunk stored =
      if nat_beq (length stored) chunk.entries_count
      then Option.map (λ hs. crypto.sha256 (join_hashes hs)) (current_hashes stored)
      else none

  -- `ok && currentHash == chunk.Hash`
  abbrev pub chunk_matches : LogChunk → List LogEntry → Bool
  chunk_matches chunk stored = elim (hash_current_chunk chunk stored) [
    | none ↦ false
    | some hash ↦ hash == chunk.hash
  ]

  -- One round of the loop over the chunks, on the found entries and the covered lines.
  unfoldable pub check_chunk : Found × List ℤ → LogChunk → List LogEntry → Found × List ℤ
  unfolding hash_current_chunk append_unique_tampered cover compare_stored_entries
  check_chunk (found, covered) chunk stored = (
    if chunk_matches chunk stored
        then found
        else append_unique_tampered found (compare_stored_entries stored),
    cover covered stored,
  )

  module _ (reads : Reads) (log_file_id : Text) where
    unfoldable pub check_chunks : Found × List ℤ → List LogChunk → Result (Found × List ℤ)
    unfolding check_chunk
    check_chunks state [] = ok state
    check_chunks state (chunk ∷ chunks) = do
      stored ←
          reads.list_log_entries_by_line_range log_file_id chunk.from_line_number
            chunk.to_line_number
      check_chunks (check_chunk state chunk stored) chunks

    -- findTamperedEntriesByRange: without a bound, every stored entry.
    unfoldable pub find_tampered_entries_by_range : ℤ → ℤ → Result (List TamperedEntry)
    unfolding compare_stored_entries
    find_tampered_entries_by_range from_line to_line = do
      stored ←
          (if ltb_ℤ (pos 0) from_line || ltb_ℤ (pos 0) to_line
            then reads.list_log_entries_by_line_range log_file_id from_line to_line
            else reads.list_log_entries log_file_id)
      ok (compare_stored_entries stored)

    -- After the chunks: the stored entries that none of them covered.
    unfoldable pub check_uncovered : Found × List ℤ → Result (List TamperedEntry)
    unfolding append_unique_tampered compare_stored_entries uncovered
    check_uncovered (found, covered) = do
      total ← reads.count_log_entries log_file_id
      if ltb (length covered) total
          then (do
            stored ← reads.list_log_entries log_file_id
            ok
                (append_unique_tampered found
                  (compare_stored_entries (uncovered covered stored))).tampered)
          else ok found.tampered

    unfoldable pub find_tampered_by_chunks : List LogChunk → Result (List TamperedEntry)
    unfolding check_chunks check_uncovered find_tampered_entries_by_range
    find_tampered_by_chunks [] = find_tampered_entries_by_range (pos 0) (pos 0)
    find_tampered_by_chunks (chunk ∷ chunks) = do
      state ← check_chunks (found_none, []) (sort_by chunk_less (chunk ∷ chunks))
      check_uncovered state

    unfoldable pub find_tampered_entries : Result (List TamperedEntry)
    unfolding find_tampered_by_chunks find_tampered_entries_by_range
    find_tampered_entries = elim reads.list_log_chunks [
      | none ↦ find_tampered_entries_by_range (pos 0) (pos 0)
      | some list ↦ list log_file_id >>= find_tampered_by_chunks
    ]
