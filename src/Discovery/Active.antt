-- ===== src/Discovery/Active.antt =====
-- Sync and the paths that were discovered: each has an active log file at the end.
use mathlib.Core.Path.{subst}
use log_integrity.Prelude.{
  suc, ◌≡◌, refl, sym, ap, ◌∙◌, inl, inr, ◌&&◌, Bool, true, false, some, List, [], ◌∷◌, Text, ◌==◌,
  text_eq, text_beq_iff, if◌then◌else◌, if_elim, Option-elim, arith, All, In, contains, Bool-cases,
}
use log_integrity.Prelude.GoMap.{GoMap, get, put, get-put}
use log_integrity.Models.{LogFile, Time}
use log_integrity.Models.Names.{log_type_name}
use log_integrity.Repository.{Error, Result, ok, err, Result-elim}
use log_integrity.Memory.{Storage}
use log_integrity.Memory.Entries.{Draws}
use log_integrity.Memory.LogFiles.{create_log_file, update_log_file, completed_file}
use log_integrity.Memory.LogFiles.Steps.{
  some_inj, update_log_file-stored, update_log_file-others, create_log_file-stored,
}
use log_integrity.Discovery.{DiscoveredLog}
use log_integrity.Discovery.Sync.{discovered_file, is_current, revived, sync_discovered}

-- The file is stored as it is.
abbrev pub Stands : Storage → LogFile → Type 0
Stands s file = get s.log_files file.id ≡ some file

module _ (server_id : Text) (found : List Text) (existing : List LogFile) where
  -- An active file of the server with the path.
  abbrev pub IsActive : Storage → Text → Type 0
  IsActive s p =
      (k : Text) × (x : LogFile) × (get s.log_files k ≡ some x)
      × (x.server_id ≡ server_id)
      × (x.path ≡ p)
      × (x.is_active ≡ true)

  -- The files that will be deactivated stand.
  abbrev pub Untouched : Storage → Type 0
  Untouched s = (f : LogFile) → In f existing → contains found f.path ≡ false → Stands s f

  -- What the map of the existing files says is stored.
  abbrev pub IsKnown : Storage → GoMap Text LogFile → Type 0
  IsKnown s known =
      (p : Text) (f : LogFile)
      → get known p ≡ some f
      → Stands s f × (f.path ≡ p) × (f.server_id ≡ server_id)

  pub record Progress (s t : Storage) (items : List DiscoveredLog) : Type 0 where
    pub untouched : Untouched t
    pub kept : (p : Text) → IsActive s p → IsActive t p
    pub activated : (d : DiscoveredLog) → In d items → IsActive t d.path

  -- A round that makes the path of its item active, and the rounds after it.
  next-Progress :
      (s t u : Storage) (item : DiscoveredLog) (items : List DiscoveredLog)
      → ((p : Text) → IsActive s p → IsActive t p)
      → IsActive t item.path
      → Progress t u items
      → Progress s u (item ∷ items)
  next-Progress s t u item items kept active rest = record {
    untouched = rest.untouched;
    kept = λ p h. rest.kept p (kept p h);
    activated = λ d i. elim i [
      | inl q ↦
          subst (λ (e : DiscoveredLog). IsActive u e.path) (sym q) (rest.kept item.path active)
      | inr j ↦ rest.activated d j
    ];
  }

  -- Two stored files with one identifier are one.
  one_file : (s : Storage) (f g : LogFile) → Stands s f → Stands s g → f.id ≡ g.id → f ≡ g
  one_file s f g a b e = some_inj (sym a ∙ ap (get s.log_files) e ∙ b)

  -- What the update of a standing file with a discovered path does.
  module _ (s : Storage) (file : LogFile) (item : DiscoveredLog) (stands : Stands s file)
      (named : file.path ≡ item.path) (own : file.server_id ≡ server_id)
      (done : (update_log_file s (revived file item)).1 ≡ ok tt) where
    after_update : Storage
    after_update = (update_log_file s (revived file item)).0

    revived-stored : get after_update.log_files file.id ≡ some (revived file item)
    unfolding after_update
    revived-stored = update_log_file-stored s (revived file item) done

    others : (k : Text) → (file.id == k) ≡ false → get after_update.log_files k ≡ get s.log_files k
    unfolding after_update
    others k = update_log_file-others s (revived file item) k

    revived-kept : (p : Text) → IsActive s p → IsActive after_update p
    revived-kept p (k, x, g, o, q, a) = elim (Bool-cases (file.id == k)) [
      | inl same ↦
          let is_file : x ≡ file =
            some_inj
              (sym g ∙ ap (get s.log_files) (sym ((text_beq_iff file.id k).0 same)) ∙ stands) in
          (
            file.id,
            revived file item,
            revived-stored,
            own,
            sym (ap (λ (f : LogFile). f.path) is_file) ∙ q,
            refl,
          )
      | inr apart ↦ (k, x, others k apart ∙ g, o, q, a)
    ]

    revived-Untouched : contains found item.path ≡ true → Untouched s → Untouched after_update
    revived-Untouched seen h f i unseen = elim (Bool-cases (file.id == f.id)) [
      | inl same ↦
          let is_file =
            one_file s file f stands (h f i unseen) ((text_beq_iff file.id f.id).0 same) in
          absurd (
            clash (
              sym (ap (contains found) (sym (ap (λ (x : LogFile). x.path) is_file) ∙ named) ∙ seen)
              ∙ unseen))
      | inr apart ↦ others f.id apart ∙ h f i unseen
    ]
      where
        clash : true ≡ false → ⊥
        clash q = cc

    revived-IsKnown :
        (known : GoMap Text LogFile)
        → IsKnown s known
        → IsKnown after_update (put known item.path (revived file item))
    revived-IsKnown known h p f g = elim (Bool-cases (item.path == p)) [
      | inl same ↦
          let is_new : revived file item ≡ f = some_inj (
            sym (
              get-put known item.path (revived file item) p
              ∙ ap (λ b. if b then some (revived file item) else get known p) same)
            ∙ g) in
          (
            subst (Stands after_update) is_new revived-stored,
            sym (ap (λ (x : LogFile). x.path) is_new) ∙ named ∙ (text_beq_iff item.path p).0 same,
            sym (ap (λ (x : LogFile). x.server_id) is_new) ∙ own,
          )
      | inr apart ↦ old f p apart (
          h p f (
            sym (
              get-put known item.path (revived file item) p
              ∙ ap (λ b. if b then some (revived file item) else get known p) apart)
            ∙ g))
    ]
      where
        clash : true ≡ false → ⊥
        clash q = cc

        old :
            (f : LogFile) (p : Text)
            → (item.path == p) ≡ false
            → Stands s f × (f.path ≡ p) × (f.server_id ≡ server_id)
            → Stands after_update f × (f.path ≡ p) × (f.server_id ≡ server_id)
        old f p apart (a, e, o) = elim (Bool-cases (file.id == f.id)) [
          | inl same ↦
              let is_file = one_file s file f stands a ((text_beq_iff file.id f.id).0 same) in
              absurd (
                clash (
                  sym (
                    (text_beq_iff item.path p).1
                      (sym named ∙ ap (λ (x : LogFile). x.path) is_file ∙ e))
                  ∙ apart))
          | inr other ↦ (others f.id other ∙ a, e, o)
        ]

  -- A step after which every stored file is still stored.
  module _ (s t : Storage)
      (grows : (k : Text) (x : LogFile)
        → get s.log_files k ≡ some x
        → get t.log_files k ≡ some x) where
    grown-kept : (p : Text) → IsActive s p → IsActive t p
    grown-kept p (k, x, g, o, q, a) = (k, x, grows k x g, o, q, a)

    grown-Untouched : Untouched s → Untouched t
    grown-Untouched h f i unseen = grows f.id f (h f i unseen)

    grown-IsKnown : (known : GoMap Text LogFile) → IsKnown s known → IsKnown t known
    grown-IsKnown known h p f g = (grows f.id f (h p f g).0, (h p f g).1, (h p f g).2)

  pub sync_discovered-Progress :
      (draw : Draws) (now : Time) (s : Storage) (known : GoMap Text LogFile)
      (items : List DiscoveredLog)
      → All (λ (d : DiscoveredLog). contains found d.path ≡ true) items
      → IsKnown s known
      → Untouched s
      → (sync_discovered draw now server_id s known items).1 ≡ ok tt
      → Progress s (sync_discovered draw now server_id s known items).0 items
  unfolding sync_discovered get after_update
  sync_discovered-Progress draw now s known [] seen o h =
      λ done. record { untouched = h; kept = λ p a. a; activated = λ d i. elim i [ ] }
  sync_discovered-Progress draw now s known (item ∷ items) seen o h =
      Option-elim P (get known item.path) _ _
        (λ q.
          let made = create_log_file s (draw 0) now (discovered_file server_id item) in
          Result-elim P made.1 _ _ (λ e bad done. absurd (clash done))
            (λ u fine done.
              let (stored, grows) =
                create_log_file-stored s (draw 0) now (discovered_file server_id item) refl fine in
              next-Progress s made.0
                (sync_discovered (λ i. draw (suc i)) now server_id made.0 known items).0 item items
                (grown-kept s made.0 grows)
                (
                  draw 0,
                  completed_file (discovered_file server_id item) (draw 0) now,
                  stored,
                  refl,
                  refl,
                  refl,
                )
                (sync_discovered-Progress (λ i. draw (suc i)) now made.0 known items seen.1
                  (grown-IsKnown s made.0 grows known o) (grown-Untouched s made.0 grows h) done)))
        (λ file q.
          let (stands, named, own) = o item.path file q in
          if_elim P (is_current file item) _ _
            (λ p done.
              next-Progress s s (sync_discovered draw now server_id s known items).0 item items
                (λ p a. a)
                (
                  file.id,
                  file,
                  stands,
                  own,
                  named,
                  both (log_type_name file.log_type == log_type_name item.log_type) file.is_active
                      p,
                )
                (sync_discovered-Progress draw now s known items seen.1 o h done))
            (λ p.
              let made = update_log_file s (revived file item) in
              let changed = put known item.path (revived file item) in
              Result-elim P made.1 _ _ (λ e bad done. absurd (clash done))
                (λ u fine done.
                  next-Progress s made.0 (sync_discovered draw now server_id made.0 changed items).0
                    item items (revived-kept s file item stands named own fine)
                    (
                      file.id,
                      revived file item,
                      update_log_file-stored s (revived file item) fine,
                      own,
                      named,
                      refl,
                    )
                    (sync_discovered-Progress draw now made.0 changed items seen.1
                      (revived-IsKnown s file item stands named own fine known o)
                      (revived-Untouched s file item stands named own fine seen.0 h) done))))
    where
      P : Storage × Result (Unit {0}) → Type 0
      P r = r.1 ≡ ok tt → Progress s r.0 (item ∷ items)

      clash : {e : Error} → err e ≡ ok tt → ⊥
      clash p = cc

      both : (a b : Bool) → (a && b) ≡ true → b ≡ true
      both a b q = ground arith
