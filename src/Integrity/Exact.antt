-- ===== src/Integrity/Exact.antt =====
-- findTamperedEntries as a whole: with chunks and without them it returns, and reports exactly the
-- stored entries that differ.
use log_integrity.Prelude.{
  ◌≡◌, refl, inl, inr, false, some, none, List, [], ◌∷◌, arith, All, All-In, In-All, In, Distinct,
  Option, Text, length, keep, ltb, contains, contains→In, not_contains→not-In, length-lt_of_missing,
  Bool-cases,
}
use log_integrity.Prelude.GoMap.{GoMap}
use log_integrity.Prelude.Sort.{sort_by, sort_by-In}
use log_integrity.Prelude.Int.{ℤ, pos, int_eq, ◌<ℤ◌}
use log_integrity.Models.{LogEntry, LogChunk, TamperedEntry}
use log_integrity.Hasher.{Crypto}
use log_integrity.Repository.{Result, ok}
use log_integrity.Increasing.{IsIncreasing, in_range}
use log_integrity.Integrity.{
  Reads, Found, found_none, append_unique_tampered, uncovered, compare_entry,
  compare_stored_entries, check_chunk, check_chunks, check_uncovered,
  find_tampered_entries_by_range, find_tampered_by_chunks, find_tampered_entries, chunk_less,
}
use log_integrity.Integrity.Compare.{IsSealed, In-compare, compare-In, compare_entry-line}
use log_integrity.Integrity.Append.{append_unique_tampered-Appends, lines, lines-In}
use log_integrity.Integrity.Covered.{
  In-uncovered, uncovered-In, line_numbers, In-line_numbers, length-line_numbers,
}
use log_integrity.Integrity.Detect.{
  Answers, IsExact, Inv, report_of_line, appended_sound, check_chunk-Inv,
}

module _ (crypto : Crypto) (key : Text) (current : GoMap ℤ Text) (view : List LogEntry) where
  Inv-none : Inv crypto key current view found_none []
  Inv-none = record {
    tracked = record { seen_listed = λ n i. i; listed_seen = λ n i. i; distinct = tt };
    sound = λ t i. elim i [ ];
    covered_distinct = tt;
    covered_in = λ n i. elim i [ ];
    complete = λ e t i j k. elim j [ ];
  }

  -- Lines of an increasing list compared one by one.
  lines_compared :
      (es : List LogEntry)
      → IsIncreasing es
      → Distinct (lines (compare_stored_entries crypto key current es))
  unfolding compare_stored_entries
  lines_compared [] h = tt
  lines_compared (e ∷ es) h = pick (compare_entry crypto key current e) refl (lines_compared es h.1)
    where
      later :
          (n : ℤ)
          → In n (lines (compare_stored_entries crypto key current es))
          → (n ≡ e.line_number)
          → ⊥
      later n i q =
          let (t, j, p) = lines-In n (compare_stored_entries crypto key current es) i in
          let (f, k, g) = compare-In crypto key current es t j in
          let lt = All-In (λ z. e.line_number <ℤ z.line_number) f es h.0 k in
          let line = (compare_entry-line crypto key current f t g).0 in ground arith

      pick :
          (o : Option TamperedEntry)
          → compare_entry crypto key current e ≡ o
          → Distinct (lines (compare_stored_entries crypto key current es))
          → Distinct (
              lines (elim o [
                | none ↦ compare_stored_entries crypto key current es
                | some t ↦ t ∷ compare_stored_entries crypto key current es
              ]))
      pick none q d = d
      pick (some t) q d =
          (λ i. later t.line_number i (compare_entry-line crypto key current e t q).0, d)

  module _ (reads : Reads) (id : Text) (answers : Answers reads id view)
      (increasing : IsIncreasing view) where
    check_chunks-Inv :
        (f : Found) (covered : List ℤ) (chunks : List LogChunk)
        → Inv crypto key current view f covered
        → All
            (λ c. IsSealed crypto c (keep (in_range c.from_line_number c.to_line_number) view))
            chunks
        → (g : Found) × (lines' : List ℤ) × (check_chunks crypto key current reads id
              (f, covered)
              chunks
            ≡ ok (g, lines'))
          × Inv crypto key current view g lines'
    unfolding check_chunks
    check_chunks-Inv f covered [] h s = (f, covered, refl, h)
    check_chunks-Inv f covered (c ∷ cs) h s =
        rw (answers.ranges c.from_line_number c.to_line_number) (
          check_chunks-Inv next.0 next.1 cs
            (check_chunk-Inv crypto key current view increasing f covered c c.from_line_number
              c.to_line_number h s.0)
            s.1)
      where
        next : Found × List ℤ
        next =
            check_chunk crypto key current (f, covered) c
              (keep (in_range c.from_line_number c.to_line_number) view)

    check_uncovered-IsExact :
        (f : Found) (covered : List ℤ)
        → Inv crypto key current view f covered
        → (ts : List TamperedEntry) × (check_uncovered crypto key current reads id (f, covered)
            ≡ ok ts)
          × IsExact crypto key current view ts
    unfolding check_uncovered
    check_uncovered-IsExact f covered h =
        rw answers.counts (elim (Bool-cases (ltb (length covered) (length view))) [
          | inl some_left ↦
              rw (some_left, answers.all)
                (let app = append_unique_tampered-Appends f rest h.tracked in
                  let sound =
                    appended_sound crypto key current view increasing f
                      (append_unique_tampered f rest) (uncovered covered view) h.sound
                      (uncovered-In covered view) app in
                  (
                    _,
                    refl,
                    record {
                      distinct = app.tracked.distinct;
                      sound = sound;
                      complete = λ e t i k. elim (Bool-cases (contains covered e.line_number)) [
                        | inl old ↦
                            elim (h.complete e t i (contains→In covered e.line_number old) k) [
                              | inl m ↦ inl (app.keeps t m)
                              | inr c ↦ inr c
                            ]
                        | inr new ↦ inl (
                            report_of_line crypto key current view increasing _ sound e t i k (
                              app.adds t (
                                In-compare crypto key current (uncovered covered view) e t
                                  (In-uncovered covered view e i new) k)))
                      ];
                    },
                  ))
          | inr none_left ↦ rw none_left (
            f.tampered,
            refl,
            record {
              distinct = h.tracked.distinct;
              sound = h.sound;
              complete = λ e t i k. elim (Bool-cases (contains covered e.line_number)) [
                | inl old ↦ h.complete e t i (contains→In covered e.line_number old) k
                | inr new ↦ absurd (short e i new none_left)
              ];
            },
          )
        ])
      where
        rest : List TamperedEntry
        rest = compare_stored_entries crypto key current (uncovered covered view)

        short :
            (e : LogEntry)
            → In e view
            → contains covered e.line_number ≡ false
            → ltb (length covered) (length view) ≡ false
            → ⊥
        short e i new k = ground (
          arith,
          length-lt_of_missing covered (line_numbers view) e.line_number h.covered_distinct
              h.covered_in (In-line_numbers e view i)
              (not_contains→not-In covered e.line_number new),
          length-line_numbers view,
        )

    -- Without chunks every stored entry is compared.
    by_range-IsExact :
        (ts : List TamperedEntry) × (find_tampered_entries_by_range crypto key current reads id
            (pos 0)
            (pos 0)
          ≡ ok ts)
        × IsExact crypto key current view ts
    unfolding find_tampered_entries_by_range
    by_range-IsExact = rw answers.all (
      compare_stored_entries crypto key current view,
      refl,
      record {
        distinct = lines_compared view increasing;
        sound = λ t i. compare-In crypto key current view t i;
        complete = λ e t i k. inl (In-compare crypto key current view e t i k);
      },
    )

    by_chunks-IsExact :
        (chunks : List LogChunk)
        → All
            (λ c. IsSealed crypto c (keep (in_range c.from_line_number c.to_line_number) view))
            chunks
        → (ts : List TamperedEntry) × (find_tampered_by_chunks crypto key current reads id chunks
            ≡ ok ts)
          × IsExact crypto key current view ts
    unfolding find_tampered_by_chunks
    by_chunks-IsExact [] s = by_range-IsExact
    by_chunks-IsExact (c ∷ cs) s =
        let (f, covered, e, h) =
          check_chunks-Inv found_none [] (sort_by chunk_less (c ∷ cs)) Inv-none (
            In-All _ (sort_by chunk_less (c ∷ cs))
              (λ d i. All-In _ d (c ∷ cs) s (sort_by-In chunk_less d (c ∷ cs) i))) in
        rw e (check_uncovered-IsExact f covered h)

    -- For entries in increasing order of lines, if the repository answers from them, lists the
    -- given chunks, and each chunk is sealed over the entries in its range, findTamperedEntries
    -- returns a report without an error. Whatever the order of the chunks and whichever lines
    -- they cover, it reports only stored entries that differ from the current lines, each line
    -- once, and all of them, unless the texts of current and stored hashes in a range of lines
    -- collide under SHA-256.
    pub find_tampered_entries-IsExact :
        (list : Text → Result (List LogChunk)) (chunks : List LogChunk)
        → reads.list_log_chunks ≡ some list
        → list id ≡ ok chunks
        → All
            (λ c. IsSealed crypto c (keep (in_range c.from_line_number c.to_line_number) view))
            chunks
        → (ts : List TamperedEntry) × (find_tampered_entries crypto key current reads id ≡ ok ts)
          × IsExact crypto key current view ts
    unfolding find_tampered_entries
    find_tampered_entries-IsExact list chunks p q s = rw (p, q) (by_chunks-IsExact chunks s)
