-- ===== src/Memory/Chunks.antt =====
-- internal/repository/memory/chunks.go.
use log_integrity.Prelude.{
  suc, ◌≡◌, refl, ap, ap₂, ◌∙◌, Bool, false, not, ◌&&◌, Option, none, some, List, [], ◌∷◌, ◌++◌,
  Text, ◌==◌, text_eq, nat_beq, if◌then◌else◌, is_empty, last_or, any,
}
use log_integrity.Prelude.GoMap.{GoMap, get, put, delete}
use log_integrity.Prelude.Sort.{sort_by}
use log_integrity.Prelude.Order.{ltb_text}
use log_integrity.Prelude.Int.{ℤ, int_eq, ltb_ℤ, beq_ℤ}
use log_integrity.Models.{LogChunk, Time}
use log_integrity.Repository.{Error, not_found, conflict, Result, ok, err, ◌>>◌, fail_if}
use log_integrity.Memory.{Storage}
use log_integrity.Memory.Entries.{exists, delete_all, Draws}

-- Reading a nil slice finds nothing.
abbrev pub ids_of : Option (List Text) → List Text
ids_of none = []
ids_of (some ids) = ids

abbrev pub chunk_ids : Storage → Text → List Text
chunk_ids s log_file_id = ids_of (get s.chunks_by_log_file log_file_id)

abbrev has_number : Storage → ℤ → Text → Bool
has_number s number id = elim (get s.chunks id) [
  | none ↦ false
  | some existing ↦ existing.chunk_number == number
]

-- validateLogChunkLocked
unfoldable pub validate_log_chunk : Storage → LogChunk → Result (Unit {0})
validate_log_chunk s c = do
  fail_if (not (exists (get s.log_files c.log_file_id))) not_found
  fail_if (not (is_empty c.id) && exists (get s.chunks c.id)) conflict
  fail_if (any (has_number s c.chunk_number) (chunk_ids s c.log_file_id)) conflict

abbrev pub completed_chunk : LogChunk → Text → Time → LogChunk
completed_chunk c drawn now = record c {
  id = if is_empty c.id then drawn else c.id;
  created_at = if nat_beq c.created_at 0 then now else c.created_at;
}

-- storeLogChunkLocked
unfoldable pub store_log_chunk : Storage → Text → Time → LogChunk → Storage
store_log_chunk s drawn now c =
    let done = completed_chunk c drawn now in
    record s {
      chunks = put s.chunks done.id done;
      chunks_by_log_file =
          put s.chunks_by_log_file c.log_file_id (chunk_ids s c.log_file_id ++ done.id ∷ []);
    }

-- createLogChunkLocked and CreateLogChunk
unfoldable pub create_log_chunk : Storage → Text → Time → LogChunk → Storage × Result (Unit {0})
create_log_chunk s drawn now c = elim (validate_log_chunk s c) [
  | err x ↦ (s, err x)
  | ok u ↦ (store_log_chunk s drawn now c, ok tt)
]

validate_chunks : Storage → List LogChunk → Result (Unit {0})
validate_chunks s [] = ok tt
validate_chunks s (c ∷ cs) = validate_log_chunk s c >> validate_chunks s cs

-- The second loop of CreateLogChunks, which validates again and stops at the first error.
create_each : Storage → Draws → Time → List LogChunk → Storage × Result (Unit {0})
unfolding create_log_chunk
create_each s draw now [] = (s, ok tt)
create_each s draw now (c ∷ cs) =
    let (s', r) = create_log_chunk s (draw 0) now c in
    let rest = create_each s' (λ i. draw (suc i)) now cs in
    elim r [ err x ↦ (s', err x) | ok u ↦ rest ]

-- CreateLogChunks
unfoldable pub create_log_chunks :
    Storage → Draws → Time → List LogChunk → Storage × Result (Unit {0})
unfolding validate_chunks create_each
create_log_chunks s draw now chunks = elim (validate_chunks s chunks) [
  | err x ↦ (s, err x)
  | ok u ↦ create_each s draw now chunks
]

abbrev found_chunks : GoMap Text LogChunk → List Text → List LogChunk
found_chunks chunks [] = []
found_chunks chunks (id ∷ ids) =
    let rest = found_chunks chunks ids in elim (get chunks id) [ none ↦ rest | some c ↦ c ∷ rest ]

abbrev pub number_less : LogChunk → LogChunk → Bool
number_less a b =
    if beq_ℤ a.chunk_number b.chunk_number
    then ltb_text a.id b.id
    else ltb_ℤ a.chunk_number b.chunk_number

-- listLogChunksLocked
unfoldable pub list_log_chunks : Storage → Text → List LogChunk
unfolding ltb_text
list_log_chunks s log_file_id =
    sort_by number_less (found_chunks s.chunks (chunk_ids s log_file_id))

abbrev pub last_of : {A : Type 0} → List A → Result A
last_of [] = err not_found
last_of (x ∷ xs) = ok (last_or x xs)

-- GetLatestLogChunk
unfoldable pub get_latest_log_chunk : Storage → Text → Result LogChunk
unfolding list_log_chunks
get_latest_log_chunk s log_file_id = last_of (list_log_chunks s log_file_id)

-- DeleteLogChunksByLogFile
unfoldable pub delete_log_chunks_by_log_file : Storage → Text → Storage
unfolding delete_all
delete_log_chunks_by_log_file s log_file_id = record s {
  chunks = delete_all s.chunks (chunk_ids s log_file_id);
  chunks_by_log_file = delete s.chunks_by_log_file log_file_id;
}

-- The second loop after the first step.
next : Draws → Time → List LogChunk → Storage × Result (Unit {0}) → Storage × Result (Unit {0})
unfolding create_each
next draw now cs r = elim r.1 [
  | err x ↦ (r.0, err x)
  | ok u ↦ create_each r.0 (λ i. draw (suc i)) now cs
]

create_log_chunk-stored :
    (s : Storage) (drawn : Text) (now : Time) (c : LogChunk)
    → validate_log_chunk s c ≡ ok tt
    → create_log_chunk s drawn now c ≡ (store_log_chunk s drawn now c, ok tt)
unfolding create_log_chunk
create_log_chunk-stored s drawn now c p = rw (p, create_log_chunk) refl

create_log_chunk-refused :
    (s : Storage) (drawn : Text) (now : Time) (c : LogChunk) (x : Error)
    → validate_log_chunk s c ≡ err x
    → create_log_chunk s drawn now c ≡ (s, err x)
unfolding create_log_chunk
create_log_chunk-refused s drawn now c x p = rw (p, create_log_chunk) refl

validate_chunks-two :
    (s : Storage) (a b : LogChunk)
    → validate_log_chunk s a ≡ ok tt
    → validate_log_chunk s b ≡ ok tt
    → validate_chunks s (a ∷ b ∷ []) ≡ ok tt
unfolding validate_chunks
validate_chunks-two s a b p q = ap₂ (λ (u v : Result (Unit {0})). u >> (v >> ok tt)) p q

-- If a storage takes each of two chunks, but refuses the second with a conflict after the first,
-- CreateLogChunks for both returns the conflict and leaves the first stored.
pub create_log_chunks_partial :
    (s : Storage) (draw : Draws) (now : Time) (a b : LogChunk)
    → validate_log_chunk s a ≡ ok tt
    → validate_log_chunk s b ≡ ok tt
    → validate_log_chunk (store_log_chunk s (draw 0) now a) b ≡ err conflict
    → create_log_chunks s draw now (a ∷ b ∷ []) ≡ (store_log_chunk s (draw 0) now a, err conflict)
unfolding create_log_chunks create_each next
create_log_chunks_partial s draw now a b p q r =
    ap
      (λ (u : Result (Unit {0})). elim u as (λ _. Storage × Result (Unit {0})) [
        | err x ↦ (s, err x)
        | ok t ↦ create_each s draw now (a ∷ b ∷ [])
      ])
      (validate_chunks-two s a b p q)
    ∙ ap (next draw now (b ∷ [])) (create_log_chunk-stored s (draw 0) now a p)
    ∙ ap (next (λ i. draw (suc i)) now [])
        (create_log_chunk-refused (store_log_chunk s (draw 0) now a) (draw 1) now b conflict r)
