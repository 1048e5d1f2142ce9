-- ===== src/Memory/Batch/Stored.antt =====
-- A batch of entries and chunks is stored whole or not at all, and keeps the index right.
use mathlib.Core.Path.{subst}
use log_integrity.Prelude.{
  suc, ◌≡◌, ◌≢◌, refl, sym, ap, ap₂, ◌∙◌, inl, inr, Bool, true, false, not, is_empty, ◌&&◌, Option,
  none, some, List, [], ◌∷◌, map, arith, All, All-In, In-All, In, Distinct, In-map, In-map_inv,
  Text, ◌==◌, text_eq, text_beq_iff, any, beq_ne, if◌then◌else◌,
}
use log_integrity.Prelude.GoMap.{get, get-put_ne}
use log_integrity.Prelude.Int.{int_eq, beq_ℤ_iff}
use log_integrity.Models.{LogEntry, LogChunk, Time}
use log_integrity.Repository.{Error, not_found, conflict, Result, ok, err, ◌>>=◌, ◌>>◌, fail_if}
use log_integrity.Memory.{Storage}
use log_integrity.Memory.Entries.{
  Draws, exists, by_line, completed, validate_log_entry, store_log_entry, store_log_entries,
}
use log_integrity.Memory.Index.{IsIndexed, line-store, store_log_entry-IsIndexed}
use log_integrity.Memory.Chunks.{store_log_chunk}
use log_integrity.Memory.Batch.{
  Key, seen_id, seen_key, validate_entries, validate_log_entry_batch, validate_log_chunk_batch,
  store_log_chunks, create_log_entries_with_chunks,
}

pub ok_inj : {A : Type 0} {a b : A} → ok a ≡ ok b → a ≡ b
ok_inj p = cc

pub err-ok : {A : Type 0} {x : Error} {a : A} → err x ≡ ok a → ⊥
err-ok p = cc

-- A chain that returns a value took one from its first step.
pub bind_ok :
    {A B : Type 0} (m : Result A) (f : A → Result B) (b : B)
    → (m >>= f) ≡ ok b
    → (a : A) × (m ≡ ok a) × (f a ≡ ok b)
bind_ok (ok a) f b h = (a, refl, h)
bind_ok (err x) f b h = absurd (err-ok h)

fail_if_ok : (t : Bool) (x : Error) (u : Unit {0}) → fail_if t x ≡ ok u → t ≡ false
fail_if_ok true x u h = absurd (err-ok h)
fail_if_ok false x u h = refl

-- Where three tests let through, the last one is false.
last_test :
    (a b c : Bool) (x y z : Error) (u : Unit {0})
    → (fail_if a x >> (fail_if b y >> fail_if c z)) ≡ ok u
    → c ≡ false
last_test true b c x y z u h = absurd (err-ok h)
last_test false true c x y z u h = absurd (err-ok h)
last_test false false c x y z u h = fail_if_ok c z u h

-- What lets a chain of a step, two tests, a step and a result through.
pub first_tests :
    {A : Type 0} (m : Result (Unit {0})) (a b : Bool) (k : Result A) (f : A → Result A) (r : A)
    → (m >> (fail_if a conflict >> (fail_if b conflict >> (k >>= f)))) ≡ ok r
    → (u : Unit {0}) × (m ≡ ok u) × (b ≡ false) × (x : A) × (k ≡ ok x) × (f x ≡ ok r)
first_tests (err x) a b k f r h = absurd (err-ok h)
first_tests (ok u) true b k f r h = absurd (err-ok h)
first_tests (ok u) false true k f r h = absurd (err-ok h)
first_tests (ok u) false false k f r h = let (x, p, q) = bind_ok k f r h in (u, refl, refl, x, p, q)

abbrev key_of : LogEntry → Key
key_of e = (e.log_file_id, e.line_number)

abbrev Free : Storage → LogEntry → Type 0
Free s e = get (by_line s e.log_file_id) e.line_number ≡ none

validate_log_entry-Free :
    (s : Storage) (e : LogEntry) (u : Unit {0}) → validate_log_entry s e ≡ ok u → Free s e
unfolding validate_log_entry
validate_log_entry-Free s e u h = nothing (get (by_line s e.log_file_id) e.line_number) (
    last_test (not (exists (get s.log_files e.log_file_id)))
      (not (is_empty e.id) && exists (get s.entries e.id))
      (exists (get (by_line s e.log_file_id) e.line_number)) not_found conflict conflict u h)
  where
    nothing : (o : Option Text) → exists o ≡ false → o ≡ none
    nothing none q = refl
    nothing (some i) q = absurd (ground (arith, q))

not-seen_key : (keys : List Key) (k : Key) → seen_key keys k ≡ false → ¬ In k keys
not-seen_key [] k h i = elim i [ ]
not-seen_key (j ∷ keys) (f, n) h (inl q) = absurd (
    ground (
      arith,
      h,
      text_beq_iff j.0 f,
      beq_ℤ_iff j.1 n,
      ap (λ (k : Key). k.0) q,
      ap (λ (k : Key). k.1) q,
    ))
not-seen_key (j ∷ keys) (f, n) h (inr i) =
    not-seen_key keys (f, n) (later (j.0 == f && j.1 == n) h) i
  where
    later :
        (b : Bool)
        → any (λ (k : Key). k.0 == f && k.1 == n) (j ∷ keys) ≡ false
        → any (λ (k : Key). k.0 == f && k.1 == n) keys ≡ false
    later b h = ground arith

-- What the validation finds out about the lines.
abbrev Lines : Storage → List Key → List LogEntry → Type 0
Lines s seen es = All (λ e. Free s e × (¬ In (key_of e) seen)) es × Distinct (map key_of es)

validate_entries-Lines :
    (s : Storage) (ids : List Text) (seen : List Key) (entries : List (Option LogEntry))
    (es : List LogEntry)
    → validate_entries s ids seen entries ≡ ok es
    → Lines s seen es
unfolding validate_entries
validate_entries-Lines s ids seen [] es h = subst (Lines s seen) (ok_inj h) (tt, tt)
validate_entries-Lines s ids seen (none ∷ entries) es h = absurd (err-ok h)
validate_entries-Lines s ids seen (some e ∷ entries) es h =
    let tail = validate_entries s (e.id ∷ ids) (key_of e ∷ seen) entries in
    let (u, v, l, rest, r, h4) =
      first_tests (validate_log_entry s e) (seen_id ids e.id) (seen_key seen (key_of e)) tail
        (λ (xs : List LogEntry). ok (e ∷ xs)) es h in
    let ih = validate_entries-Lines s (e.id ∷ ids) (key_of e ∷ seen) entries rest r in
    subst (Lines s seen) {x = e ∷ rest} (ok_inj h4) (
      (
        (validate_log_entry-Free s e u v, not-seen_key seen (key_of e) l),
        In-All _ rest (λ x j. let (f, n) = All-In _ x rest ih.0 j in (f, λ k. n (inr k))),
      ),
      (
        (λ j.
            let (x, m, q) = In-map_inv (key_of e) key_of rest j in
            (All-In _ x rest ih.0 m).1 (inl (sym q))),
        ih.1,
      ),
    )

-- The identifiers under which the entries are stored.
unfoldable pub stored_ids : Draws → Time → List LogEntry → List Text
stored_ids draw now [] = []
stored_ids draw now (e ∷ es) = (completed e (draw 0) now).id ∷ stored_ids (λ i. draw (suc i)) now es

abbrev pub Unused : Storage → List Text → Type 0
Unused s ids = All (λ id. get s.entries id ≡ none) ids × Distinct ids

still-Free :
    (s : Storage) (drawn : Text) (now : Time) (e x : LogEntry)
    → Free s x
    → key_of e ≢ key_of x
    → Free (store_log_entry s drawn now e) x
still-Free s drawn now e x h n =
    line-store s drawn now e x.log_file_id x.line_number
    ∙ there (e.log_file_id == x.log_file_id) (e.line_number == x.line_number) refl refl
  where
    there :
        (a b : Bool)
        → (e.log_file_id == x.log_file_id) ≡ a
        → (e.line_number == x.line_number) ≡ b
        → (if a && b
            then some (completed e drawn now).id
            else get (by_line s x.log_file_id) x.line_number)
          ≡ none
    there true true p q = absurd (
        n (
          ap₂ (λ u v. (u, v)) ((text_beq_iff e.log_file_id x.log_file_id).0 p)
            ((beq_ℤ_iff e.line_number x.line_number).0 q)))
    there true false p q = h
    there false b p q = h

still_unused :
    (s : Storage) (drawn : Text) (now : Time) (e : LogEntry) (id : Text)
    → get s.entries id ≡ none
    → (completed e drawn now).id ≢ id
    → get (store_log_entry s drawn now e).entries id ≡ none
unfolding store_log_entry
still_unused s drawn now e id h n =
    get-put_ne s.entries (completed e drawn now).id (completed e drawn now) id
      (beq_ne (completed e drawn now).id id n)
    ∙ h

store_log_entries-IsIndexed :
    (s : Storage) (draw : Draws) (now : Time) (es : List LogEntry)
    → IsIndexed s
    → All (Free s) es
    → Distinct (map key_of es)
    → Unused s (stored_ids draw now es)
    → IsIndexed (store_log_entries s draw now es)
unfolding store_log_entries stored_ids
store_log_entries-IsIndexed s draw now [] h f d u = h
store_log_entries-IsIndexed s draw now (e ∷ es) h f d u =
    store_log_entries-IsIndexed (store_log_entry s (draw 0) now e) (λ i. draw (suc i)) now es
      (store_log_entry-IsIndexed s (draw 0) now e h u.0.0 f.0)
      (In-All _ es (λ x j.
        still-Free s (draw 0) now e x (All-In _ x es f.1 j)
          (λ q. d.0 (subst (λ k. In k (map key_of es)) (sym q) (In-map x key_of es j)))))
      d.1
      (
        In-All _ (stored_ids (λ i. draw (suc i)) now es) (λ id j.
            still_unused s (draw 0) now e id
              (All-In _ id (stored_ids (λ i. draw (suc i)) now es) u.0.1 j)
              (λ q. u.1.0 (subst (λ k. In k (stored_ids (λ i. draw (suc i)) now es)) (sym q) j))),
        u.1.1,
      )

store_log_chunks-IsIndexed :
    (s : Storage) (draw : Draws) (now : Time) (cs : List LogChunk)
    → IsIndexed s
    → IsIndexed (store_log_chunks s draw now cs)
unfolding store_log_chunks store_log_chunk
store_log_chunks-IsIndexed s draw now [] h = h
store_log_chunks-IsIndexed s draw now (c ∷ cs) h =
    store_log_chunks-IsIndexed (store_log_chunk s (draw 0) now c) (λ i. draw (suc i)) now cs
      (record { listed = h.listed; indexed = h.indexed; lines_once = h.lines_once })

-- On a storage whose index is right, if the identifiers of the entries that pass the validation,
-- given or drawn, are unused and differ, CreateLogEntriesWithChunks leaves the index right
-- whatever it returns, and if it returns an error, the storage is as it was.
pub create_log_entries_with_chunks-IsWhole :
    (s : Storage) (draw draw_chunk : Draws) (now : Time) (entries : List (Option LogEntry))
    (chunks : List (Option LogChunk))
    → IsIndexed s
    → ((es : List LogEntry)
        → validate_log_entry_batch s entries ≡ ok es
        → Unused s (stored_ids draw now es))
    → IsIndexed (create_log_entries_with_chunks s draw draw_chunk now entries chunks).0
      × ((x : Error)
          → (create_log_entries_with_chunks s draw draw_chunk now entries chunks).1 ≡ err x
          → (create_log_entries_with_chunks s draw draw_chunk now entries chunks).0 ≡ s)
unfolding create_log_entries_with_chunks validate_log_entry_batch
create_log_entries_with_chunks-IsWhole s draw draw_chunk now entries chunks h fresh =
    pick (validate_log_entry_batch s entries) refl (validate_log_chunk_batch s chunks)
  where
    pick :
        (r : Result (List LogEntry))
        → validate_log_entry_batch s entries ≡ r
        → (t : Result (List LogChunk))
        → let out : Storage × Result (Unit {0}) = elim r [
          | err x ↦ (s, err x)
          | ok es ↦ elim t [
            | err x ↦ (s, err x)
            | ok cs ↦ (store_log_chunks (store_log_entries s draw now es) draw_chunk now cs, ok tt)
          ]
        ] in
          IsIndexed out.0 × ((x : Error) → out.1 ≡ err x → out.0 ≡ s)
    pick (err x) q t = (h, λ y e. refl)
    pick (ok es) q (err x) = (h, λ y e. refl)
    pick (ok es) q (ok cs) =
        let l = validate_entries-Lines s [] [] entries es q in
        (
          store_log_chunks-IsIndexed (store_log_entries s draw now es) draw_chunk now cs (
              store_log_entries-IsIndexed s draw now es h
                (In-All _ es (λ x j. (All-In _ x es l.0 j).0)) l.1 (fresh es q)),
          λ x e. absurd (err-ok (sym e)),
        )
