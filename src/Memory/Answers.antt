-- ===== src/Memory/Answers.antt =====
-- The in-memory storage answers the integrity service from its entries, listed by line.
use mathlib.Core.Path.{subst}
use log_integrity.Prelude.{
  suc, ◌^◌, ◌<◌, ◌≡◌, ◌≢◌, refl, sym, ap, ap₂, ◌∙◌, inl, inr, Bool, true, false, Option, none, some,
  List, [], ◌∷◌, arith, All, In, Distinct, Text, text_eq, length, if◌then◌else◌, codes,
}
use log_integrity.Prelude.GoMap.{GoMap, get, keys, values, In→get}
use log_integrity.Prelude.Sort.{insert_by, sort_by, sort_by-In, All-insert_by, length-sort_by}
use log_integrity.Prelude.Int.{ℤ, pos, int_eq, ◌<ℤ◌, ltb_ℤ, beq_ℤ_iff}
use log_integrity.Models.{LogEntry}
use log_integrity.Increasing.{IsIncreasing}
use log_integrity.Repository.{Result, ok, err, failed}
use log_integrity.Integrity.{Reads}
use log_integrity.Integrity.Covered.{line_numbers, In-line_numbers, length-line_numbers}
use log_integrity.Integrity.Detect.{Answers}
use log_integrity.Memory.{Storage}
use log_integrity.Memory.Paginate.{paginate, paginate_page}
use log_integrity.Memory.Entries.{
  by_line, found_entries, line_less, list_log_entries, list_log_entries_by_line_range,
  count_log_entries,
}
use log_integrity.Memory.Index.{IsIndexed}
use log_integrity.Memory.Chunks.{list_log_chunks}

-- A panic of a handler ends the request.
abbrev pub or_panic : {A : Type 0} → Option A → Result A
or_panic none = err (failed (codes "panic"))
or_panic (some a) = ok a

-- ListLogEntries, ListLogEntriesByLineRange, CountLogEntries and ListLogChunks as the integrity
-- service calls them.
unfoldable pub memory_reads : Storage → Reads
memory_reads s = record {
  list_log_entries = λ f. or_panic (paginate (list_log_entries s f) (pos 0) (pos 0));
  list_log_entries_by_line_range = λ f a b. ok (list_log_entries_by_line_range s f a b);
  count_log_entries = λ f. ok (count_log_entries s f);
  list_log_chunks = some (λ f. or_panic (paginate (list_log_chunks s f) (pos 0) (pos 0)));
}

some_inj : {A : Type 0} {a b : A} → some a ≡ some b → a ≡ b
some_inj q = cc

-- The entries that an index lists have the lines of the index.
line_numbers-found :
    (entries : GoMap Text LogEntry) (m : GoMap ℤ Text)
    → ((n : ℤ) (id : Text)
        → In (n, id) m
        → (e : LogEntry) × (get entries id ≡ some e) × (e.line_number ≡ n))
    → line_numbers (found_entries entries (values m)) ≡ keys m
line_numbers-found entries [] h = refl
line_numbers-found entries ((n, id) ∷ m) h =
    pick (get entries id) refl (line_numbers-found entries m (λ k i j. h k i (inr j)))
  where
    pick :
        (o : Option LogEntry)
        → get entries id ≡ o
        → line_numbers (found_entries entries (values m)) ≡ keys m
        → line_numbers (elim o [
          | none ↦ found_entries entries (values m)
          | some e ↦ e ∷ found_entries entries (values m)
        ])
          ≡ n ∷ keys m
    pick none g ih = let (e, k, q) = h n id (inl refl) in absurd (cc (g, k))
    pick (some d) g ih =
        let (e, k, q) = h n id (inl refl) in
        ap₂ (λ u v. u ∷ v) (ap (λ x. x.line_number) (some_inj (sym g ∙ k)) ∙ q) ih

insert_by-IsIncreasing :
    (x : LogEntry) (ys : List LogEntry)
    → IsIncreasing ys
    → ¬ In x.line_number (line_numbers ys)
    → IsIncreasing (insert_by line_less x ys)
unfolding insert_by
insert_by-IsIncreasing x [] h n = (tt, tt)
insert_by-IsIncreasing x (y ∷ ys) h n =
    pick (line_less y x) refl (insert_by-IsIncreasing x ys h.1 (λ i. n (inr i)))
  where
    above :
        (zs : List LogEntry)
        → x.line_number <ℤ y.line_number
        → All (λ f. y.line_number <ℤ f.line_number) zs
        → All (λ f. x.line_number <ℤ f.line_number) zs
    above [] p q = tt
    above (z ∷ zs) p q = (omega (arith, q.0), above zs p q.1)

    pick :
        (b : Bool)
        → line_less y x ≡ b
        → IsIncreasing (insert_by line_less x ys)
        → IsIncreasing (if b then y ∷ insert_by line_less x ys else x ∷ y ∷ ys)
    pick true q ih =
        (All-insert_by line_less (λ f. y.line_number <ℤ f.line_number) x ys (ground arith) h.0, ih)
    pick false q ih =
        let lt : x.line_number <ℤ y.line_number =
          less x.line_number y.line_number q (λ r. n (inl r)) in
        ((lt, above ys lt h.0), h)
      where
        less : (a b : ℤ) → ltb_ℤ b a ≡ false → a ≢ b → a <ℤ b
        less a b p r = ground (arith, beq_ℤ_iff a b)

sort_by-IsIncreasing :
    (xs : List LogEntry) → Distinct (line_numbers xs) → IsIncreasing (sort_by line_less xs)
unfolding sort_by
sort_by-IsIncreasing [] d = tt
sort_by-IsIncreasing (x ∷ xs) d =
    insert_by-IsIncreasing x (sort_by line_less xs) (sort_by-IsIncreasing xs d.1)
      (λ i. d.0 (back i))
  where
    entry :
        (zs : List LogEntry) (n : ℤ)
        → In n (line_numbers zs)
        → (z : LogEntry) × In z zs × (n ≡ z.line_number)
    entry [] n i = elim i [ ]
    entry (z ∷ zs) n (inl q) = (z, inl refl, q)
    entry (z ∷ zs) n (inr i) = let (y, j, q) = entry zs n i in (y, inr j, q)

    back :
        In x.line_number (line_numbers (sort_by line_less xs)) → In x.line_number (line_numbers xs)
    back i =
        let (z, j, q) = entry (sort_by line_less xs) x.line_number i in
        subst (λ n. In n (line_numbers xs)) (sym q)
          (In-line_numbers z xs (sort_by-In line_less z xs j))

module _ (s : Storage) (f : Text) (h : IsIndexed s) where
  listed_lines : line_numbers (found_entries s.entries (values (by_line s f))) ≡ keys (by_line s f)
  listed_lines = line_numbers-found s.entries (by_line s f) (λ n id i.
      let (e, g, a, q) = h.listed f n id (In→get (by_line s f) n id (h.lines_once f) i) in
      (e, g, q))

  -- On a storage whose index is right, the entries of a file are listed in strictly increasing
  -- order of their lines.
  pub list_log_entries-IsIncreasing : IsIncreasing (list_log_entries s f)
  unfolding list_log_entries
  list_log_entries-IsIncreasing =
      sort_by-IsIncreasing _ (subst Distinct (sym listed_lines) (h.lines_once f))

  -- A storage whose index is right and that lists fewer than 2^63 entries for a file answers the
  -- reads of the integrity service from those entries: all of them, a range of lines, and their
  -- number.
  pub memory_reads-Answers :
      length (list_log_entries s f) < 2 ^ 63 → Answers (memory_reads s) f (list_log_entries s f)
  unfolding memory_reads list_log_entries_by_line_range count_log_entries list_log_entries
  memory_reads-Answers small = record {
    all = ap or_panic (paginate_page (list_log_entries s f) 0 0 small (omega arith));
    ranges = λ a b. refl;
    counts = ap ok (
        sym (
          length-sort_by line_less (found_entries s.entries (values (by_line s f)))
          ∙ sym (length-line_numbers (found_entries s.entries (values (by_line s f))))
          ∙ ap length listed_lines
          ∙ length-keys (by_line s f)));
  }
    where
      length-keys : (m : GoMap ℤ Text) → length (keys m) ≡ length m
      length-keys [] = refl
      length-keys ((n, id) ∷ m) = ap suc (length-keys m)
