-- ===== src/Integrity/Detect.antt =====
-- findTamperedEntries with chunks: what it reports is exactly what a comparison of every stored
-- entry reports, up to order and up to a SHA-256 collision.
use mathlib.Core.Path.{subst}
use log_integrity.Prelude.{
  ◌≡◌, sym, ap, ◌∙◌, ◌⊎◌, inl, inr, Option, none, some, List, All-In, In, In-keep_inv, Distinct,
  Text, length, keep, Bool-cases,
}
use log_integrity.Prelude.GoMap.{GoMap}
use log_integrity.Prelude.Int.{ℤ, int_eq}
use log_integrity.Models.{LogEntry, LogChunk, TamperedEntry}
use log_integrity.Hasher.{Crypto}
use log_integrity.Repository.{ok}
use log_integrity.Increasing.{IsIncreasing, in_range}
use log_integrity.Integrity.{
  Reads, Found, append_unique_tampered, cover, compare_entry, compare_stored_entries, chunk_matches,
  check_chunk,
}
use log_integrity.Integrity.Compare.{
  Collision, IsSealed, Matches, chunk_matches-Matches, compare-In, In-compare, compare_entry-line,
}
use log_integrity.Integrity.Append.{
  IsTracked, Appends, append_unique_tampered-Appends, lines, lines-In,
}
use log_integrity.Integrity.Covered.{
  cover-In, cover-Distinct, same_line, line_numbers, In-line_numbers,
}

-- The repository answers from the stored entries of the file and the chunks of the file.
pub record Answers (reads : Reads) (id : Text) (view : List LogEntry) : Type 0 where
  pub all : reads.list_log_entries id ≡ ok view
  pub ranges :
      (a b : ℤ) → reads.list_log_entries_by_line_range id a b ≡ ok (keep (in_range a b) view)
  pub counts : reads.count_log_entries id ≡ ok (length view)

module _ (crypto : Crypto) (key : Text) (current : GoMap ℤ Text) (view : List LogEntry) where
  -- The texts of the current and of the stored hashes in some range of lines differ and collide.
  abbrev pub Collides : Type 0
  Collides = (a : ℤ) × (b : ℤ) × Collision crypto key current (keep (in_range a b) view)

  -- Every report is on a stored entry that differs, each line is reported once, and every stored
  -- entry that differs is reported, unless a SHA-256 collision in a range of the lines hides it.
  pub record IsExact (ts : List TamperedEntry) : Type 0 where
    pub distinct : Distinct (lines ts)
    pub sound :
        (t : TamperedEntry)
        → In t ts
        → (e : LogEntry) × In e view × (compare_entry crypto key current e ≡ some t)
    pub complete :
        (e : LogEntry) (t : TamperedEntry)
        → In e view
        → compare_entry crypto key current e ≡ some t
        → In t ts ⊎ Collides

  pub record Inv (f : Found) (covered : List ℤ) : Type 0 where
    pub tracked : IsTracked f
    pub sound :
        (t : TamperedEntry)
        → In t f.tampered
        → (e : LogEntry) × In e view × (compare_entry crypto key current e ≡ some t)
    pub covered_distinct : Distinct covered
    pub covered_in : (n : ℤ) → In n covered → In n (line_numbers view)
    pub complete :
        (e : LogEntry) (t : TamperedEntry)
        → In e view
        → In e.line_number covered
        → compare_entry crypto key current e ≡ some t
        → In t f.tampered ⊎ Collides

  module _ (increasing : IsIncreasing view) where
    -- A reported line is reported with the report of its entry.
    pub report_of_line :
        (ts : List TamperedEntry)
        → ((t : TamperedEntry)
            → In t ts
            → (e : LogEntry) × In e view × (compare_entry crypto key current e ≡ some t))
        → (e : LogEntry) (t : TamperedEntry) → In e view
        → compare_entry crypto key current e ≡ some t
        → In t.line_number (lines ts)
        → In t ts
    report_of_line ts sound e t i h j =
        let (u, k, q) = lines-In t.line_number ts j in
        let (f, l, g) = sound u k in subst (λ z. In z ts) (same u f l g q) k
      where
        same :
            (u : TamperedEntry) (f : LogEntry)
            → In f view
            → compare_entry crypto key current f ≡ some u
            → u.line_number ≡ t.line_number
            → u ≡ t
        same u f l g q =
            let e' = same_line view f e increasing l i (
              sym (compare_entry-line crypto key current f u g).0
              ∙ q
              ∙ (compare_entry-line crypto key current e t h).0) in
            some_inj (sym g ∙ ap (compare_entry crypto key current) e' ∙ h)
          where
            some_inj : {a b : TamperedEntry} → some a ≡ some b → a ≡ b
            some_inj p = cc

    pub appended_sound :
        (f g : Found) (stored : List LogEntry)
        → ((t : TamperedEntry)
            → In t f.tampered
            → (e : LogEntry) × In e view × (compare_entry crypto key current e ≡ some t))
        → ((e : LogEntry) → In e stored → In e view)
        → Appends f (compare_stored_entries crypto key current stored) g
        → (t : TamperedEntry) → In t g.tampered
        → (e : LogEntry) × In e view × (compare_entry crypto key current e ≡ some t)
    appended_sound f g stored sound inside a t i = elim (a.from t i) [
      | inl j ↦ sound t j
      | inr j ↦ let (e, k, h) = compare-In crypto key current stored t j in (e, inside e k, h)
    ]

    pub check_chunk-Inv :
        (f : Found) (covered : List ℤ) (chunk : LogChunk) (a b : ℤ)
        → Inv f covered
        → IsSealed crypto chunk (keep (in_range a b) view)
        → Inv
            (check_chunk crypto key current (f, covered) chunk (keep (in_range a b) view)).0
            (check_chunk crypto key current (f, covered) chunk (keep (in_range a b) view)).1
    unfolding check_chunk
    check_chunk-Inv f covered chunk a b h sealed =
        elim (Bool-cases (chunk_matches crypto key current chunk stored)) [
          | inl same ↦ rw same (record {
            tracked = h.tracked;
            sound = h.sound;
            covered_distinct = cover-Distinct stored covered h.covered_distinct;
            covered_in = still_in;
            complete = λ e t i j k. elim (entry_of e i j) [
              | inl old ↦ h.complete e t i old k
              | inr m ↦ elim (chunk_matches-Matches crypto key current chunk stored sealed same) [
                | inl all ↦ absurd (clash (All-In (Matches crypto key current) e stored all m) k)
                | inr c ↦ inr (a, b, c)
              ]
            ];
          })
          | inr differs ↦ rw differs (
              let app =
                append_unique_tampered-Appends f (compare_stored_entries crypto key current stored)
                  h.tracked in
              let sound' =
                appended_sound f
                  (append_unique_tampered f (compare_stored_entries crypto key current stored))
                  stored h.sound inside app in
              record {
                tracked = app.tracked;
                sound = sound';
                covered_distinct = cover-Distinct stored covered h.covered_distinct;
                covered_in = still_in;
                complete = λ e t i j k. elim (entry_of e i j) [
                  | inl old ↦ elim (h.complete e t i old k) [
                    | inl m ↦ inl (app.keeps t m)
                    | inr c ↦ inr c
                  ]
                  | inr m ↦ inl (
                      report_of_line _ sound' e t i k
                        (app.adds t (In-compare crypto key current stored e t m k)))
                ];
              })
        ]
      where
        stored : List LogEntry
        stored = keep (in_range a b) view

        inside : (e : LogEntry) → In e stored → In e view
        inside e i = (In-keep_inv (in_range a b) e view i).0

        clash : {o : Option TamperedEntry} {t : TamperedEntry} → o ≡ none → o ≡ some t → ⊥
        clash p q = cc

        still_in : (n : ℤ) → In n (cover covered stored) → In n (line_numbers view)
        still_in n i = elim (cover-In stored covered n i) [
          | inl j ↦ h.covered_in n j
          | inr (e, j, q) ↦
              subst (λ m. In m (line_numbers view)) (sym q) (In-line_numbers e view (inside e j))
        ]

        entry_of :
            (e : LogEntry)
            → In e view
            → In e.line_number (cover covered stored)
            → In e.line_number covered ⊎ In e stored
        entry_of e i j = elim (cover-In stored covered e.line_number j) [
          | inl k ↦ inl k
          | inr (e', k, q) ↦
              inr (
                subst (λ z. In z stored) (sym (same_line view e e' increasing i (inside e' k) q)) k)
        ]
