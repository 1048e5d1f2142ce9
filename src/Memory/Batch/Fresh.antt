-- ===== src/Memory/Batch/Fresh.antt =====
-- Identifiers that are drawn: unused before a batch, and the later ones still unused after it.
use mathlib.Core.Path.{subst}
use log_integrity.Prelude.{
  ℕ, suc, ◌+◌, ◌<◌, ◌≡◌, refl, sym, ap, ◌∙◌, inl, inr, Option, none, some, List, [], ◌∷◌, map,
  arith, All, In-All, In, Distinct, Text, text_eq, beq_ne, length, is_empty, if◌then◌else◌,
}
use log_integrity.Prelude.GoMap.{get, get-put_ne}
use log_integrity.Models.{LogEntry, LogChunk, Time}
use log_integrity.Repository.{Result, ok, Result-elim}
use log_integrity.Memory.{Storage}
use log_integrity.Memory.Entries.{
  Draws, completed, validate_log_entry, store_log_entry, store_log_entries,
}
use log_integrity.Memory.Index.{IsIndexed}
use log_integrity.Memory.Chunks.{store_log_chunk}
use log_integrity.Memory.Batch.{
  Key, seen_id, seen_key, validate_entries, validate_log_entry_batch, validate_log_chunk_batch,
  store_log_chunks, create_log_entries_with_chunks,
}
use log_integrity.Memory.Batch.Stored.{
  Unused, stored_ids, create_log_entries_with_chunks-IsWhole, first_tests, ok_inj, err-ok,
}

-- No drawn identifier is stored, and they differ from each other.
pub record IsFresh (s : Storage) (draw : Draws) : Type 0 where
  pub unused : (i : ℕ) → get s.entries (draw i) ≡ none
  pub once : (i j : ℕ) → draw i ≡ draw j → i ≡ j

abbrev pub HasNoId : LogEntry → Type 0
HasNoId e = e.id ≡ []

stored_ids-drawn :
    (draw : Draws) (now : Time) (es : List LogEntry) (id : Text)
    → All HasNoId es
    → In id (stored_ids draw now es)
    → (i : ℕ) × (i < length es) × (id ≡ draw i)
unfolding stored_ids
stored_ids-drawn draw now [] id n i = elim i [ ]
stored_ids-drawn draw now (e ∷ es) id n (inl q) =
    (0, omega arith, q ∙ ap (λ t. if is_empty t then draw 0 else t) n.0)
stored_ids-drawn draw now (e ∷ es) id n (inr j) =
    let (k, b, q) = stored_ids-drawn (λ i. draw (suc i)) now es id n.1 j in
    (suc k, omega (arith, b), q)

stored_ids-Distinct :
    (draw : Draws) (now : Time) (es : List LogEntry)
    → All HasNoId es
    → ((i j : ℕ) → draw i ≡ draw j → i ≡ j)
    → Distinct (stored_ids draw now es)
unfolding stored_ids
stored_ids-Distinct draw now [] n once = tt
stored_ids-Distinct draw now (e ∷ es) n once = (
  λ i.
      let (k, b, q) = stored_ids-drawn (λ i. draw (suc i)) now es _ n.1 i in
      apart k (once 0 (suc k) (sym (ap (λ t. if is_empty t then draw 0 else t) n.0) ∙ q)),
  stored_ids-Distinct (λ i. draw (suc i)) now es n.1 (λ i j q. pred i j (once (suc i) (suc j) q)),
)
  where
    apart : (k : ℕ) → 0 ≡ suc k → ⊥
    apart k q = omega (arith, q)

    pred : (i j : ℕ) → suc i ≡ suc j → i ≡ j
    pred i j q = omega (arith, q)

IsFresh-Unused :
    (s : Storage) (draw : Draws) (now : Time) (es : List LogEntry)
    → IsFresh s draw
    → All HasNoId es
    → Unused s (stored_ids draw now es)
IsFresh-Unused s draw now es f n = (
  In-All _ (stored_ids draw now es) (λ id i.
      let (k, b, q) = stored_ids-drawn draw now es id n i in ap (get s.entries) q ∙ f.unused k),
  stored_ids-Distinct draw now es n f.once,
)

-- A store of entries leaves the other identifiers as they are.
get-store_log_entries :
    (s : Storage) (draw : Draws) (now : Time) (es : List LogEntry) (id : Text)
    → ¬ In id (stored_ids draw now es)
    → get (store_log_entries s draw now es).entries id ≡ get s.entries id
unfolding store_log_entries stored_ids store_log_entry
get-store_log_entries s draw now [] id n = refl
get-store_log_entries s draw now (e ∷ es) id n =
    get-store_log_entries (store_log_entry s (draw 0) now e) (λ i. draw (suc i)) now es id
      (λ i. n (inr i))
    ∙ get-put_ne s.entries (completed e (draw 0) now).id (completed e (draw 0) now) id
        (beq_ne (completed e (draw 0) now).id id (λ q. n (inl (sym q))))

entries-store_log_chunks :
    (s : Storage) (draw : Draws) (now : Time) (cs : List LogChunk)
    → (store_log_chunks s draw now cs).entries ≡ s.entries
unfolding store_log_chunks store_log_chunk
entries-store_log_chunks s draw now [] = refl
entries-store_log_chunks s draw now (c ∷ cs) =
    entries-store_log_chunks (store_log_chunk s (draw 0) now c) (λ i. draw (suc i)) now cs

-- The batch that passes the validation is the one that was given.
validate_entries-same :
    (s : Storage) (ids : List Text) (seen : List Key) (xs es : List LogEntry)
    → validate_entries s ids seen (map some xs) ≡ ok es
    → es ≡ xs
unfolding validate_entries
validate_entries-same s ids seen [] es h = sym (ok_inj h)
validate_entries-same s ids seen (x ∷ xs) es h =
    let key : Key = (x.log_file_id, x.line_number) in
    let (u, v, l, rest, r, q) =
      first_tests (validate_log_entry s x) (seen_id ids x.id) (seen_key seen key)
        (validate_entries s (x.id ∷ ids) (key ∷ seen) (map some xs))
        (λ (ys : List LogEntry). ok (x ∷ ys)) es h in
    sym (ok_inj q) ∙ ap (λ ys. x ∷ ys) (validate_entries-same s (x.id ∷ ids) (key ∷ seen) xs rest r)

module _ (s : Storage) (draw draw_chunk : Draws) (now : Time) (xs : List LogEntry)
    (cs : List (Option LogChunk)) (n : All HasNoId xs) (f : IsFresh s draw) where
  abbrev pub Next : Storage × Result (Unit {0}) → Type 0
  Next r = r.1 ≡ ok tt → IsFresh r.0 (λ i. draw (length xs + i))

  stored-IsFresh :
      (cs' : List LogChunk)
      → IsFresh
          (store_log_chunks (store_log_entries s draw now xs) draw_chunk now cs')
          (λ i. draw (length xs + i))
  stored-IsFresh cs' = record {
    unused = λ i.
        ap (λ m. get m (draw (length xs + i)))
          (entries-store_log_chunks (store_log_entries s draw now xs) draw_chunk now cs')
        ∙ get-store_log_entries s draw now xs (draw (length xs + i)) (λ j.
          let (k, b, q) = stored_ids-drawn draw now xs _ n j in
          beyond i k b (f.once (length xs + i) k q))
        ∙ f.unused (length xs + i);
    once = λ i j q. shift i j (f.once (length xs + i) (length xs + j) q);
  }
    where
      beyond : (i k : ℕ) → k < length xs → length xs + i ≡ k → ⊥
      beyond i k b q = omega (arith, b, q)

      shift : (i j : ℕ) → length xs + i ≡ length xs + j → i ≡ j
      shift i j q = omega (arith, q)

  -- A batch under fresh identifiers keeps the index right and leaves the later identifiers fresh.
  pub create_log_entries_with_chunks-Next :
      Next (create_log_entries_with_chunks s draw draw_chunk now (map some xs) cs)
  unfolding create_log_entries_with_chunks validate_log_entry_batch
  create_log_entries_with_chunks-Next =
      Result-elim Next (validate_log_entry_batch s (map some xs)) _ _ (λ x q r. absurd (err-ok r))
        (λ es q.
          Result-elim Next (validate_log_chunk_batch s cs) _ _ (λ x p r. absurd (err-ok r))
            (λ cs' p r.
              subst
                (λ ys.
                  IsFresh (store_log_chunks (store_log_entries s draw now ys) draw_chunk now cs')
                    (λ i. draw (length xs + i)))
                (sym (validate_entries-same s [] [] xs es q)) (stored-IsFresh cs')))

  pub create_log_entries_with_chunks-kept :
      IsIndexed s
      → IsIndexed (create_log_entries_with_chunks s draw draw_chunk now (map some xs) cs).0
  unfolding validate_log_entry_batch
  create_log_entries_with_chunks-kept h =
      (create_log_entries_with_chunks-IsWhole s draw draw_chunk now (map some xs) cs h (λ es q.
        subst (λ ys. Unused s (stored_ids draw now ys))
          (sym (validate_entries-same s [] [] xs es q)) (IsFresh-Unused s draw now xs f n))).0
