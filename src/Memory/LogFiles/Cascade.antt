-- ===== src/Memory/LogFiles/Cascade.antt =====
-- The delete of a log file takes its entries along and no others.
use mathlib.Core.Path.{subst}
use log_integrity.Prelude.{
  ◌≡◌, ◌≢◌, ◌↔◌, refl, Distinct, sym, ap, ◌∙◌, inl, inr, Bool, true, false, none, some, List, [],
  ◌∷◌, arith, In, Text, ◌==◌, text_eq, text_beq_iff, beq_ne, Bool-cases, if◌then◌else◌,
}
use log_integrity.Prelude.GoMap.{
  GoMap, get, delete, keys, values, get-delete, get-delete_self, get→In, In→get,
}
use log_integrity.Prelude.Int.{ℤ, int_eq}
use log_integrity.Models.{LogEntry, LogFile}
use log_integrity.Memory.{Storage}
use log_integrity.Memory.Entries.{by_line, delete_all, or_empty}
use log_integrity.Memory.Index.{IsIndexed}
use log_integrity.Memory.LogFiles.{delete_log_file_cascade}

some_inj : {A : Type 0} {a b : A} → some a ≡ some b → a ≡ b
some_inj p = cc

nothing_at : (k : ℤ) (id : Text) → get {K = ℤ} {V = Text} [] k ≡ some id → ⊥
unfolding get
nothing_at k id p = cc

-- What a map holds after the deletes was there before, and its key is none of the deleted.
pub get-delete_all :
    {V : Type 0} (m : GoMap Text V) (ids : List Text) (id : Text) (v : V)
    → get (delete_all m ids) id ≡ some v
    → (get m id ≡ some v) × (¬ In id ids)
unfolding delete_all
get-delete_all m [] id v h = (h, λ i. elim i [ ])
get-delete_all m (x ∷ ids) id v h =
    let (g, n) = get-delete_all (delete m x) ids id v h in
    pick (x == id) refl (sym (get-delete m x id) ∙ g) n
  where
    pick :
        (b : Bool)
        → (x == id) ≡ b
        → (if b then none else get m id) ≡ some v
        → ¬ In id ids
        → (get m id ≡ some v) × (¬ In id (x ∷ ids))
    pick true q g n = absurd (ground (arith, g))
    pick false q g n = (
      g,
      λ i. elim i [
        | inl p ↦ absurd (ground (arith, q, (text_beq_iff x id).1 (sym p)))
        | inr j ↦ n j
      ],
    )

-- A key that is none of the deleted stays.
delete_all_other :
    {V : Type 0} (m : GoMap Text V) (ids : List Text) (id : Text)
    → ¬ In id ids
    → get (delete_all m ids) id ≡ get m id
unfolding delete_all
delete_all_other m [] id n = refl
delete_all_other m (x ∷ ids) id n =
    delete_all_other (delete m x) ids id (λ i. n (inr i))
    ∙ get-delete m x id
    ∙ ap (λ t. if t then none else get m id) (beq_ne x id (λ q. n (inl (sym q))))

In-values : {K V : Type 0} (m : GoMap K V) (k : K) (v : V) → In (k, v) m → In v (values m)
In-values [] k v i = elim i [ ]
In-values {K = K} {V = V} ((a, b) ∷ m) k v (inl q) = inl (ap (λ (p : K × V). p.1) q)
In-values ((a, b) ∷ m) k v (inr i) = inr (In-values m k v i)

values-In : {K V : Type 0} (m : GoMap K V) (v : V) → In v (values m) → (k : K) × In (k, v) m
values-In [] v i = elim i [ ]
values-In ((a, b) ∷ m) v (inl q) = (a, inl (ap (λ w. (a, w)) q))
values-In ((a, b) ∷ m) v (inr i) = let (k, j) = values-In m v i in (k, inr j)

module _ (s : Storage) (f : Text) (file : LogFile) (h : IsIndexed s)
    (stored : get s.log_files f ≡ some file) where
  -- The storage after the delete, for a file that is there.
  abbrev after : Storage
  after = delete_log_file_cascade s f

  pub entries-after : after.entries ≡ delete_all s.entries (values (by_line s f))
  unfolding delete_log_file_cascade
  entries-after = rw (stored, delete_log_file_cascade) refl

  pub index-after : after.entries_by_log_file ≡ delete s.entries_by_log_file f
  unfolding delete_log_file_cascade
  index-after = rw (stored, delete_log_file_cascade) refl

  files-after : after.log_files ≡ delete s.log_files f
  unfolding delete_log_file_cascade
  files-after = rw (stored, delete_log_file_cascade) refl

  by_line-after : (g : Text) → by_line after g ≡ (if f == g then [] else by_line s g)
  by_line-after g =
      ap (λ m. or_empty (get m g)) index-after
      ∙ ap or_empty (get-delete s.entries_by_log_file f g)
      ∙ empty (f == g)
    where
      empty :
          (t : Bool)
          → or_empty (if t then none else get s.entries_by_log_file g)
            ≡ (if t then [] else by_line s g)
      empty true = refl
      empty false = refl

  -- An entry is there after the delete if it was there and is of another file.
  kept :
      (id : Text) (e : LogEntry)
      → get s.entries id ≡ some e
      → e.log_file_id ≢ f
      → get after.entries id ≡ some e
  kept id e g n =
      ap (λ m. get m id) entries-after
      ∙ delete_all_other s.entries (values (by_line s f)) id (λ i.
        let (k, j) = values-In (by_line s f) id i in
        let (x, y, a, b) = h.listed f k id (In→get (by_line s f) k id (h.lines_once f) j) in
        n (ap (λ (z : LogEntry). z.log_file_id) (some_inj (sym g ∙ y)) ∙ a))
      ∙ g

  left_over :
      (id : Text) (e : LogEntry)
      → get after.entries id ≡ some e
      → (get s.entries id ≡ some e) × (e.log_file_id ≢ f)
  left_over id e g =
      let (o, n) =
        get-delete_all s.entries (values (by_line s f)) id e
          (ap (λ m. get m id) (sym entries-after) ∙ g) in
      (
        o,
        λ q. n (
            In-values (by_line s f) e.line_number id (
              get→In (by_line s f) e.line_number id
                (subst (λ t. get (by_line s t) e.line_number ≡ some id) q (h.indexed id e o)))),
      )

  still : (g : Text) → g ≢ f → by_line after g ≡ by_line s g
  still g n =
      by_line-after g ∙ ap (λ t. if t then [] else by_line s g) (beq_ne f g (λ q. n (sym q)))

  -- On a storage whose index is right, the delete of a stored log file removes the file, every
  -- entry of it and none of another file, and leaves the index right.
  pub delete_log_file_cascade-IsExact :
      (get (delete_log_file_cascade s f).log_files f ≡ none)
      × ((id : Text) (e : LogEntry)
          → (get (delete_log_file_cascade s f).entries id ≡ some e)
            ↔ ((get s.entries id ≡ some e) × (e.log_file_id ≢ f)))
      × IsIndexed (delete_log_file_cascade s f)
  delete_log_file_cascade-IsExact = (
    ap (λ m. get m f) files-after ∙ get-delete_self s.log_files f,
    (λ id e. (left_over id e, λ (g, n). kept id e g n)),
    record {
      listed = λ g k id p. elim (Bool-cases (f == g)) [
        | inl q ↦ absurd (
            nothing_at k id (
              sym (
                ap (λ (m : GoMap ℤ Text). get m k)
                  (by_line-after g ∙ ap (λ t. if t then [] else by_line s g) q))
              ∙ p))
        | inr q ↦
            let n : g ≢ f = λ r. absurd (apart q ((text_beq_iff f g).1 (sym r))) in
            let (e, o, a, b) =
              h.listed g k id (sym (ap (λ (m : GoMap ℤ Text). get m k) (still g n)) ∙ p) in
            (e, kept id e o (λ r. n (sym a ∙ r)), a, b)
      ];
      indexed = λ id e p.
          let (o, n) = left_over id e p in
          ap (λ (m : GoMap ℤ Text). get m e.line_number) (still e.log_file_id n) ∙ h.indexed id e o;
      lines_once = λ g. elim (Bool-cases (f == g)) [
        | inl q ↦
            subst (λ m. Distinct (keys m))
              (sym (by_line-after g ∙ ap (λ t. if t then [] else by_line s g) q)) tt
        | inr q ↦
            subst (λ m. Distinct (keys m))
              (sym (by_line-after g ∙ ap (λ t. if t then [] else by_line s g) q)) (h.lines_once g)
      ];
    },
  )
    where
      apart : {b : Bool} → b ≡ false → b ≡ true → ⊥
      apart p q = ground (arith, p, q)
