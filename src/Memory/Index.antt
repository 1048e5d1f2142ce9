-- ===== src/Memory/Index.antt =====
-- The two maps of entries agree: a line leads to its entry, and an entry is found by its line.
pub mod Emptied
use log_integrity.Prelude.{
  ◌≡◌, refl, sym, ap, ap₂, ◌∙◌, ◌⊎◌, inl, inr, Bool, true, false, ◌&&◌, Option, none, some, arith,
  Text, ◌==◌, text_eq, text_beq_iff, if◌then◌else◌, beq_ne, beq_refl, Bool-cases, Distinct,
}
use log_integrity.Prelude.GoMap.{get, put, keys, get-put, get-put_self, get-put_ne, put-Distinct}
use log_integrity.Prelude.Int.{ℤ, int_eq, beq_ℤ_iff}
use log_integrity.Models.{LogEntry, Time}
use log_integrity.Memory.{Storage}
use log_integrity.Memory.Entries.{by_line, completed, store_log_entry}

-- Each line of the index leads to its entry, each entry is found by its line, and an index holds a line
-- once.
pub record IsIndexed (s : Storage) : Type 0 where
  pub listed :
      (f : Text) (n : ℤ) (id : Text)
      → get (by_line s f) n ≡ some id
      → (e : LogEntry) × (get s.entries id ≡ some e) × (e.log_file_id ≡ f) × (e.line_number ≡ n)
  pub indexed :
      (id : Text) (e : LogEntry)
      → get s.entries id ≡ some e
      → get (by_line s e.log_file_id) e.line_number ≡ some id
  pub lines_once : (f : Text) → Distinct (keys (by_line s f))

-- The index after a store.
by_line-store :
    (s : Storage) (drawn : Text) (now : Time) (e : LogEntry) (f : Text)
    → by_line (store_log_entry s drawn now e) f ≡ (
        if e.log_file_id == f
        then put (by_line s e.log_file_id) e.line_number (completed e drawn now).id
        else by_line s f)
unfolding store_log_entry
by_line-store s drawn now e f = elim (Bool-cases (e.log_file_id == f)) [
  | inl q ↦
      rw
        (
          get-put s.entries_by_log_file e.log_file_id
              (put (by_line s e.log_file_id) e.line_number (completed e drawn now).id) f,
          q,
        )
        refl
  | inr q ↦
      rw
        (
          get-put s.entries_by_log_file e.log_file_id
              (put (by_line s e.log_file_id) e.line_number (completed e drawn now).id) f,
          q,
        )
        refl
]

-- What the index holds at a line after a store.
pub line-store :
    (s : Storage) (drawn : Text) (now : Time) (e : LogEntry) (f : Text) (n : ℤ)
    → get (by_line (store_log_entry s drawn now e) f) n ≡ (
        if e.log_file_id == f && e.line_number == n
        then some (completed e drawn now).id
        else get (by_line s f) n)
line-store s drawn now e f n = elim (Bool-cases (e.log_file_id == f)) [
  | inl q ↦
      rw (by_line-store s drawn now e f, q)
        (get-put (by_line s e.log_file_id) e.line_number (completed e drawn now).id n
          ∙ ap
              (λ t.
                if e.line_number == n then some (completed e drawn now).id else get (by_line s t) n)
              ((text_beq_iff e.log_file_id f).0 q))
  | inr q ↦ rw (by_line-store s drawn now e f, q) refl
]

module _ (s : Storage) (drawn : Text) (now : Time) (e : LogEntry) (h : IsIndexed s)
    (fresh : get s.entries (completed e drawn now).id ≡ none)
    (free : get (by_line s e.log_file_id) e.line_number ≡ none) where
  done : LogEntry
  done = completed e drawn now

  keeps_entry :
      (id : Text) (x : LogEntry)
      → get s.entries id ≡ some x
      → get (store_log_entry s drawn now e).entries id ≡ some x
  unfolding store_log_entry done
  keeps_entry id x g =
      get-put_ne s.entries done.id done id
        (beq_ne done.id id (λ q. absurd (clash (sym fresh ∙ ap (get s.entries) q ∙ g))))
      ∙ g
    where
      clash : none ≡ some x → ⊥
      clash p = cc

  -- On a storage whose index is right, a store of an entry under an unused identifier at a free
  -- line leaves the index right.
  pub store_log_entry-IsIndexed : IsIndexed (store_log_entry s drawn now e)
  unfolding store_log_entry done
  store_log_entry-IsIndexed = record {
    listed = λ f n id p. elim (Bool-cases (e.log_file_id == f && e.line_number == n)) [
      | inl q ↦ (
        done,
        ap (get (put s.entries done.id done)) (
              sym (
                same (
                  sym (line-store s drawn now e f n ∙ here (some done.id) (get (by_line s f) n) q)
                  ∙ p)))
            ∙ get-put_self s.entries done.id done,
        (text_beq_iff e.log_file_id f).0 (ground arith),
        (beq_ℤ_iff e.line_number n).0 (ground arith),
      )
      | inr q ↦
          let (x, g, a, b) = h.listed f n id (
            sym (line-store s drawn now e f n ∙ there (some done.id) (get (by_line s f) n) q)
            ∙ p) in
          (x, keeps_entry id x g, a, b)
    ];
    indexed = λ id x p. elim (Bool-cases (done.id == id)) [
      | inl q ↦ own id x q (
          same (
            sym (get-put_self s.entries done.id done)
            ∙ ap (get (put s.entries done.id done)) ((text_beq_iff done.id id).0 q)
            ∙ p))
      | inr q ↦ other id x (sym (get-put_ne s.entries done.id done id q) ∙ p)
    ];
    lines_once = λ f. elim (Bool-cases (e.log_file_id == f)) [
      | inl q ↦
          rw (by_line-store s drawn now e f, q)
            (put-Distinct (by_line s e.log_file_id) e.line_number done.id
              (h.lines_once e.log_file_id))
      | inr q ↦ rw (by_line-store s drawn now e f, q) (h.lines_once f)
    ];
  }
    where
      same : {A : Type 0} {a b : A} → some a ≡ some b → a ≡ b
      same p = cc

      here : {A : Type 0} {b : Bool} (x y : A) → b ≡ true → (if b then x else y) ≡ x
      here x y q = rw q

      there : {A : Type 0} {b : Bool} (x y : A) → b ≡ false → (if b then x else y) ≡ y
      there x y q = rw q

      own :
          (id : Text) (x : LogEntry)
          → (done.id == id) ≡ true
          → done ≡ x
          → get (by_line (store_log_entry s drawn now e) x.log_file_id) x.line_number ≡ some id
      own id x q r =
          sym (
            ap
              (λ (y : LogEntry).
                get (by_line (store_log_entry s drawn now e) y.log_file_id) y.line_number)
              r)
          ∙ line-store s drawn now e e.log_file_id e.line_number
          ∙ here (some done.id) (get (by_line s e.log_file_id) e.line_number)
              (ap₂ (λ u v. u && v) (beq_refl e.log_file_id) (beq_refl e.line_number))
          ∙ ap some ((text_beq_iff done.id id).0 q)

      other :
          (id : Text) (x : LogEntry)
          → get s.entries id ≡ some x
          → get (by_line (store_log_entry s drawn now e) x.log_file_id) x.line_number ≡ some id
      other id x g =
          line-store s drawn now e x.log_file_id x.line_number
          ∙ there (some done.id) (get (by_line s x.log_file_id) x.line_number) (
              apart (Bool-cases (e.log_file_id == x.log_file_id && e.line_number == x.line_number)))
          ∙ h.indexed id x g
        where
          clash : ◌≡◌ {A = Option Text} none (some id) → ⊥
          clash p = cc

          apart :
              ((e.log_file_id == x.log_file_id && e.line_number == x.line_number) ≡ true)
                ⊎ ((e.log_file_id == x.log_file_id && e.line_number == x.line_number) ≡ false)
              → (e.log_file_id == x.log_file_id && e.line_number == x.line_number) ≡ false
          apart (inr q) = q
          apart (inl q) = absurd (
              clash (
                sym free
                ∙ ap₂ (λ f n. get (by_line s f) n)
                    ((text_beq_iff e.log_file_id x.log_file_id).0 (ground arith))
                    ((beq_ℤ_iff e.line_number x.line_number).0 (ground arith))
                ∙ h.indexed id x g))
