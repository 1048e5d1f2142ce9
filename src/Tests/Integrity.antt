-- ===== src/Tests/Integrity.antt =====
-- A file of two stored lines, the second of which is changed.
use log_integrity.Prelude.{ℕ, ◌≡◌, refl, ◌⊎◌, some, List, [], ◌∷◌, arith, All, Text, codes, keep}
use log_integrity.Prelude.Classes.{text_beq}
use log_integrity.Prelude.GoMap.{GoMap, get}
use log_integrity.Hasher.{hash_string}
use log_integrity.Prelude.Int.{ℤ, pos}
use log_integrity.Models.{LogChunk, TamperedEntry}
use log_integrity.Repository.{ok}
use log_integrity.Increasing.{in_range}
use log_integrity.Collector.Chunks.{hash_entry_batch, hashes}
use log_integrity.Integrity.{Reads, hash_current_chunk, find_tampered_entries}
use log_integrity.Integrity.Compare.{Collision, IsSealed, Matches, chunk_matches-Matches}
use log_integrity.Integrity.Detect.{IsExact}
use log_integrity.Integrity.Exact.{find_tampered_entries-IsExact}
use log_integrity.Tests.Data.{crypto, two_entries, two_entries-IsIncreasing}

-- The first line hashes to its stored value, the second does not.
abbrev current : GoMap ℤ Text
current = (pos 1, 72 ∷ []) ∷ (pos 2, codes "changed") ∷ []

abbrev unchanged : GoMap ℤ Text
unchanged = (pos 1, 72 ∷ []) ∷ (pos 2, 73 ∷ []) ∷ []

abbrev chunk : LogChunk
chunk = record {
  id = codes "c";
  log_file_id = codes "log";
  chunk_number = pos 0;
  from_line_number = pos 1;
  to_line_number = pos 2;
  from_byte_offset = pos 0;
  to_byte_offset = pos 0;
  entries_count = 2;
  hash = hash_entry_batch crypto two_entries;
  hash_algorithm = codes "sha256";
  created_at = 5;
}

abbrev reads : Reads
reads = record {
  list_log_entries = λ f. ok two_entries;
  list_log_entries_by_line_range = λ f a b. ok (keep (in_range a b) two_entries);
  count_log_entries = λ f. ok 2;
  list_log_chunks = some (λ f. ok (chunk ∷ []));
}

sealed : IsSealed crypto chunk two_entries
unfolding hashes
sealed = (refl, (((λ q. omega (arith, q)), tt), (((λ q. omega (arith, q)), tt), tt)))

find_tampered_entries-IsExact_example :
    (ts : List TamperedEntry) × (find_tampered_entries crypto [] current reads (codes "log")
      ≡ ok ts)
    × IsExact crypto [] current two_entries ts
unfolding hashes
find_tampered_entries-IsExact_example =
    find_tampered_entries-IsExact crypto [] current two_entries reads (codes "log")
      (record { all = refl; ranges = λ a b. refl; counts = refl }) two_entries-IsIncreasing
      (λ f. ok (chunk ∷ [])) (chunk ∷ []) refl refl (sealed, tt)

chunk_matches-Matches_example :
    All (Matches crypto [] unchanged) two_entries ⊎ Collision crypto [] unchanged two_entries
unfolding hashes hash_current_chunk hash_entry_batch get text_beq hash_string
chunk_matches-Matches_example =
    chunk_matches-Matches crypto [] unchanged chunk two_entries sealed refl

abbrev report : ℕ → TamperedEntry
report n = record {
  line_number = pos n;
  stored_hash = codes "x";
  current_hash = [];
  current_content = [];
}
