-- ===== src/Discovery/Pending.antt =====
-- The loops of Sync and the active files whose path was not discovered.
use log_integrity.Prelude.{
  suc, ◌≡◌, refl, sym, ap, ◌∙◌, ◌⊎◌, inl, inr, ◌||◌, not, Bool, true, false, none, some, List, [],
  ◌∷◌, Text, text_eq, if_elim, Option-elim, arith, All, In, contains,
}
use log_integrity.Prelude.GoMap.{GoMap, get, put}
use log_integrity.Models.{LogFile, Time}
use log_integrity.Repository.{Error, Result, ok, err, Result-elim}
use log_integrity.Memory.{Storage, after}
use log_integrity.Memory.Entries.{Draws}
use log_integrity.Memory.LogFiles.{create_log_file, update_log_file}
use log_integrity.Discovery.{DiscoveredLog}
use log_integrity.Discovery.Sync.{
  files_by_path, discovered_file, is_current, revived, sync_discovered, deactivate_missing,
}
use log_integrity.Memory.LogFiles.Steps.{
  some_inj, put-cases, update_log_file-cases, create_log_file-cases, update_log_file-stored,
}

module _ (server_id : Text) (found : List Text) where
  -- An active file of the server whose path was not discovered.
  abbrev pub Missing : LogFile → Type 0
  Missing x = (x.server_id ≡ server_id) × (contains found x.path ≡ false) × (x.is_active ≡ true)

  -- Such files are among the given ones, under their own identifiers.
  abbrev pub Pending : List LogFile → Storage → Type 0
  Pending files t =
      (k : Text) (x : LogFile) → get t.log_files k ≡ some x → Missing x → In x files × (x.id ≡ k)

  abbrev pub Named : GoMap Text LogFile → Type 0
  Named m = (p : Text) (file : LogFile) → get m p ≡ some file → file.path ≡ p

  put-Named :
      (m : GoMap Text LogFile) (p : Text) (file : LogFile)
      → Named m
      → file.path ≡ p
      → Named (put m p file)
  put-Named m p file h e q f g = elim (put-cases m p q file f g) [
    | inl old ↦ h q f old
    | inr new ↦ ap (λ (y : LogFile). y.path) new.0 ∙ e ∙ new.1
  ]

  pub empty-Named : Named []
  unfolding get
  empty-Named p file h = absurd (clash h)
    where
      clash : none ≡ some file → ⊥
      clash q = cc

  pub files_by_path-Named :
      (m : GoMap Text LogFile) (files : List LogFile) → Named m → Named (files_by_path m files)
  unfolding files_by_path
  files_by_path-Named m [] h = h
  files_by_path-Named m (file ∷ files) h =
      files_by_path-Named (put m file.path file) files (put-Named m file.path file h refl)

  -- A step that stores a file with a discovered path.
  discovered-Pending :
      (files : List LogFile) (s t : Storage) (path : Text)
      → contains found path ≡ true
      → ((k : Text) (x : LogFile)
          → get t.log_files k ≡ some x
          → (get s.log_files k ≡ some x) ⊎ (x.path ≡ path))
      → Pending files s
      → Pending files t
  discovered-Pending files s t path seen cases h k x g missing = elim (cases k x g) [
    | inl old ↦ h k x old missing
    | inr new ↦ absurd (clash (sym (ap (contains found) new ∙ seen) ∙ missing.1))
  ]
    where
      clash : true ≡ false → ⊥
      clash p = cc

  after-Pending :
      {B : Type 0} (files : List LogFile) (r : Storage × Result (Unit {0}))
      (next : Storage → Storage × Result B)
      → Pending files r.0
      → Pending files (next r.0).0
      → Pending files (after r next).0
  after-Pending files r next h n =
      Result-elim (λ (x : Storage × Result _). Pending files x.0) r.1 _ _ (λ x q. h) (λ u q. n)

  pub sync_discovered-Pending :
      (files : List LogFile) (draw : Draws) (now : Time) (s : Storage) (known : GoMap Text LogFile)
      (items : List DiscoveredLog)
      → All (λ (d : DiscoveredLog). contains found d.path ≡ true) items
      → Named known
      → Pending files s
      → Pending files (sync_discovered draw now server_id s known items).0
  unfolding sync_discovered
  sync_discovered-Pending files draw now s known [] seen o h = h
  sync_discovered-Pending files draw now s known (item ∷ items) seen o h =
      Option-elim P (get known item.path) _ _
        (λ q.
          let made = create_log_file s (draw 0) now (discovered_file server_id item) in
          let kept : Pending files made.0 =
            discovered-Pending files s made.0 item.path seen.0
              (λ k x. create_log_file-cases k x s (draw 0) now (discovered_file server_id item))
              h in
          after-Pending files made
            (λ t. sync_discovered (λ i. draw (suc i)) now server_id t known items) kept
            (sync_discovered-Pending files (λ i. draw (suc i)) now made.0 known items seen.1 o
              kept))
        (λ file q.
          if_elim P (is_current file item) _ _
            (λ p. sync_discovered-Pending files draw now s known items seen.1 o h)
            (λ p.
              let made = update_log_file s (revived file item) in
              let kept : Pending files made.0 =
                discovered-Pending files s made.0 item.path seen.0
                  (λ k x g.
                    renamed file (o item.path file q) x
                      (update_log_file-cases k x s (revived file item) g))
                  h in
              after-Pending files made
                (λ t.
                  sync_discovered draw now server_id t (put known item.path (revived file item))
                    items)
                kept
                (sync_discovered-Pending files draw now made.0
                  (put known item.path (revived file item)) items seen.1
                  (put-Named known item.path (revived file item) o (o item.path file q)) kept)))
    where
      P : Storage × Result (Unit {0}) → Type 0
      P r = Pending files r.0

      renamed :
          {A : Type 0} {k : Text} (file : LogFile)
          → file.path ≡ item.path
          → (x : LogFile) → A ⊎ ((x ≡ revived file item) × (file.id ≡ k))
          → A ⊎ (x.path ≡ item.path)
      renamed file e x (inl old) = inl old
      renamed file e x (inr new) = inr (ap (λ (f : LogFile). f.path) new.0 ∙ e)

  -- The step of the second loop on a file that it deactivates.
  deactivated-Pending :
      (s : Storage) (file : LogFile) (files : List LogFile)
      → Pending (file ∷ files) s
      → (update_log_file s (record file { is_active = false })).1 ≡ ok tt
      → Pending files (update_log_file s (record file { is_active = false })).0
  deactivated-Pending s file files h done k x g missing =
      elim (update_log_file-cases k x s (record file { is_active = false }) g) [
        | inr new ↦ absurd (clash (sym missing.2 ∙ ap (λ (f : LogFile). f.is_active) new.0))
        | inl old ↦ left (h k x old missing)
      ]
    where
      clash : true ≡ false → ⊥
      clash p = cc

      left : In x (file ∷ files) × (x.id ≡ k) → In x files × (x.id ≡ k)
      left (inr i, e) = (i, e)
      left (inl p, e) =
          let now_stored = update_log_file-stored s (record file { is_active = false }) done in
          let same : k ≡ file.id = sym e ∙ ap (λ (f : LogFile). f.id) p in
          let t = (update_log_file s (record file { is_active = false })).0 in
          let fresh : x ≡ record file { is_active = false } =
            some_inj (sym g ∙ ap (get t.log_files) same ∙ now_stored) in
          absurd (clash (sym missing.2 ∙ ap (λ (f : LogFile). f.is_active) fresh))

  skipped-Pending :
      (s : Storage) (file : LogFile) (files : List LogFile)
      → (contains found file.path || not file.is_active) ≡ true
      → Pending (file ∷ files) s
      → Pending files s
  skipped-Pending s file files skip h k x g missing = left (h k x g missing)
    where
      clash : (a b : Bool) → (a || not b) ≡ true → a ≡ false → b ≡ true → ⊥
      clash a b p q r = ground arith

      left : In x (file ∷ files) × (x.id ≡ k) → In x files × (x.id ≡ k)
      left (inr i, e) = (i, e)
      left (inl p, e) = absurd (
          clash (contains found file.path) file.is_active skip
            (sym (ap (λ (f : LogFile). contains found f.path) p) ∙ missing.1)
            (sym (ap (λ (f : LogFile). f.is_active) p) ∙ missing.2))

  pub deactivate_missing-Pending :
      (s : Storage) (files : List LogFile)
      → Pending files s
      → (deactivate_missing found s files).1 ≡ ok tt
      → Pending [] (deactivate_missing found s files).0
  unfolding deactivate_missing
  deactivate_missing-Pending s [] h = λ done. h
  deactivate_missing-Pending s (file ∷ files) h =
      if_elim P (contains found file.path || not file.is_active) _ _
        (λ q. deactivate_missing-Pending s files (skipped-Pending s file files q h))
        (λ q.
          let made = update_log_file s (record file { is_active = false }) in
          Result-elim P made.1 _ _ (λ e bad done. absurd (clash done))
            (λ u fine.
              deactivate_missing-Pending made.0 files (deactivated-Pending s file files h fine)))
    where
      P : Storage × Result (Unit {0}) → Type 0
      P r = r.1 ≡ ok tt → Pending [] r.0

      clash : {e : Error} → err e ≡ ok tt → ⊥
      clash p = cc
