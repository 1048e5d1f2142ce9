-- ===== src/Discovery/Exact.antt =====
-- Sync as a whole: the active log files of the server are those of the discovered paths.
use mathlib.Core.Path.{subst}
use log_integrity.Prelude.{
  ◌≡◌, refl, sym, ap, ◌∙◌, ◌↔◌, inl, inr, ◌||◌, not, Bool, true, false, none, some, List, [], ◌∷◌,
  Text, ◌==◌, text_eq, text_beq_iff, beq_ne, if◌then◌else◌, if_elim, arith, All, In-All, In,
  In-keep_inv, contains, In→contains, Bool-cases,
}
use log_integrity.Prelude.GoMap.{GoMap, get, put, values, get-put}
use log_integrity.Prelude.Sort.{sort_by-In}
use log_integrity.Models.{LogFile, Time}
use log_integrity.Repository.{Error, Result, ok, err, Result-elim}
use log_integrity.Memory.{Storage}
use log_integrity.Memory.Entries.{Draws}
use log_integrity.Memory.LogFiles.{update_log_file}
use log_integrity.Memory.LogFiles.Steps.{some_inj, update_log_file-others}
use log_integrity.Memory.Listings.Files.{list_log_files_by_server, path_less}
use log_integrity.Discovery.{DiscoveredLog}
use log_integrity.Discovery.Sync.{files_by_path, sync_discovered, paths, deactivate_missing, sync}
use log_integrity.Discovery.Active.{
  Stands, IsActive, Untouched, IsKnown, Progress, sync_discovered-Progress,
}
use log_integrity.Discovery.Missing.{sync-deactivates}

-- The loop of Sync over the existing files changes only files that were not discovered.
deactivate_missing-others :
    (found : List Text) (s : Storage) (files : List LogFile) (k : Text)
    → All (λ (f : LogFile). contains found f.path ≡ false → (f.id == k) ≡ false) files
    → get (deactivate_missing found s files).0.log_files k ≡ get s.log_files k
unfolding deactivate_missing
deactivate_missing-others found s [] k a = refl
deactivate_missing-others found s (file ∷ files) k a =
    if_elim P (contains found file.path || not file.is_active) _ _
      (λ q. deactivate_missing-others found s files k a.1)
      (λ q.
        let made = update_log_file s (record file { is_active = false }) in
        let same : get made.0.log_files k ≡ get s.log_files k =
          update_log_file-others s (record file { is_active = false }) k
            (a.0 (unseen (contains found file.path) (not file.is_active) q)) in
        Result-elim P made.1 _ _ (λ e bad. same)
          (λ u fine. deactivate_missing-others found made.0 files k a.1 ∙ same))
  where
    P : Storage × Result (Unit {0}) → Type 0
    P r = get r.0.log_files k ≡ get s.log_files k

    unseen : (a b : Bool) → (a || b) ≡ false → a ≡ false
    unseen a b q = ground arith

module _ (s : Storage) (server_id : Text) (items : List DiscoveredLog) where
  existing : List LogFile
  existing = list_log_files_by_server s server_id

  found : List Text
  found = paths items

  -- A file of the server that stands under its identifier.
  IsOwn : LogFile → Type 0
  IsOwn f = Stands s f × (f.server_id ≡ server_id)

  put-IsKnown :
      (known : GoMap Text LogFile) (file : LogFile)
      → IsOwn file
      → IsKnown server_id found existing s known
      → IsKnown server_id found existing s (put known file.path file)
  unfolding IsOwn
  put-IsKnown known file own h p f g = elim (Bool-cases (file.path == p)) [
    | inl same ↦
        let is_file : file ≡ f = some_inj (
          sym (get-put known file.path file p ∙ ap (λ b. if b then some file else get known p) same)
          ∙ g) in
        (
          subst (Stands s) is_file own.0,
          sym (ap (λ (x : LogFile). x.path) is_file) ∙ (text_beq_iff file.path p).0 same,
          sym (ap (λ (x : LogFile). x.server_id) is_file) ∙ own.1,
        )
    | inr apart ↦ h p f (
        sym (get-put known file.path file p ∙ ap (λ b. if b then some file else get known p) apart)
        ∙ g)
  ]

  files_by_path-IsKnown :
      (known : GoMap Text LogFile) (files : List LogFile)
      → All IsOwn files
      → IsKnown server_id found existing s known
      → IsKnown server_id found existing s (files_by_path known files)
  unfolding files_by_path
  files_by_path-IsKnown known [] a h = h
  files_by_path-IsKnown known (file ∷ files) a h =
      files_by_path-IsKnown (put known file.path file) files a.1 (put-IsKnown known file a.0 h)

  empty-IsKnown : IsKnown server_id found existing s []
  unfolding get
  empty-IsKnown p f g = absurd (clash g)
    where
      clash : none ≡ some f → ⊥
      clash q = cc

  -- What the second loop leaves of an active file with a discovered path.
  deactivated-IsActive :
      (t : Storage) (p : Text)
      → contains found p ≡ true
      → Untouched server_id found existing t
      → IsActive server_id found existing t p
      → IsActive server_id found existing (deactivate_missing found t existing).0 p
  deactivated-IsActive t p seen h (k, x, g, o, q, a) = (
    k,
    x,
    deactivate_missing-others found t existing k (
          In-All _ _ (λ f i unseen. beq_ne f.id k (λ same. clash (
            sym (
              ap (contains found) (
                ap (λ (y : LogFile). y.path)
                  (some_inj (sym (h f i unseen) ∙ ap (get t.log_files) same ∙ g))
                ∙ q)
              ∙ seen)
            ∙ unseen))))
        ∙ g,
    o,
    q,
    a,
  )
    where
      clash : true ≡ false → ⊥
      clash r = cc

  listed-IsOwn : ((f : LogFile) → In f existing → Stands s f) → All IsOwn existing
  unfolding existing IsOwn list_log_files_by_server
  listed-IsOwn stand = In-All _ _ (λ f i. (
    stand f i,
    (text_beq_iff f.server_id server_id).0
        (In-keep_inv (λ (x : LogFile). x.server_id == server_id) f (values s.log_files)
          (sort_by-In path_less f _ i)).1,
  ))

  found-IsActive :
      (draw : Draws) (now : Time) (t : Storage) (listed : List LogFile)
      → ((f : LogFile) → In f existing → Stands s f)
      → sync draw now s server_id items ≡ (t, ok listed)
      → (d : DiscoveredLog) → In d items
      → IsActive server_id found existing t d.path
  unfolding sync existing found
  found-IsActive draw now t listed stand done d i = at_end done
    where
      P : Storage × Result (List LogFile) → Type 0
      P r = r ≡ (t, ok listed) → IsActive server_id found existing t d.path

      clash :
          {u : Storage} {e : Error}
          → ◌≡◌ {A = Storage × Result (List LogFile)} (u, err e) (t, ok listed)
          → ⊥
      clash q = cc

      In-paths : (c : DiscoveredLog) (ds : List DiscoveredLog) → In c ds → In c.path (paths ds)
      In-paths c [] j = elim j [ ]
      In-paths c (e ∷ ds) (inl q) = inl (ap (λ (r : DiscoveredLog). r.path) q)
      In-paths c (e ∷ ds) (inr j) = inr (In-paths c ds j)

      seen : (c : DiscoveredLog) → In c items → contains found c.path ≡ true
      seen c j = In→contains (paths items) c.path (In-paths c items j)

      first : Storage × Result (Unit {0})
      first = sync_discovered draw now server_id s (files_by_path [] existing) items

      at_end : P (sync draw now s server_id items)
      at_end =
          Result-elim P first.1 _ _ (λ e q bad. absurd (clash bad))
            (λ u q.
              let second = deactivate_missing (paths items) first.0 existing in
              let outcome : Progress server_id found existing s first.0 items =
                sync_discovered-Progress server_id found existing draw now s
                  (files_by_path [] existing) items (In-All _ _ seen)
                  (files_by_path-IsKnown [] existing (listed-IsOwn stand) empty-IsKnown)
                  (λ f j unseen. stand f j) q in
              Result-elim P second.1 _ _ (λ e r bad. absurd (clash bad))
                (λ v r good.
                  subst (λ (z : Storage). IsActive server_id found existing z d.path)
                    (ap (λ (p : Storage × Result (List LogFile)). p.0) good)
                    (deactivated-IsActive first.0 d.path (seen d i) outcome.untouched
                      (outcome.activated d i))))

-- If every log file is stored under its own identifier, so is every listed file of the server,
-- and Sync returns no error, then the paths of the active log files of the server are exactly the
-- discovered ones.
pub sync-IsExact :
    (draw : Draws) (now : Time) (s t : Storage) (server_id : Text) (items : List DiscoveredLog)
    (listed : List LogFile)
    → ((k : Text) (x : LogFile) → get s.log_files k ≡ some x → x.id ≡ k)
    → ((f : LogFile) → In f (list_log_files_by_server s server_id) → Stands s f)
    → sync draw now s server_id items ≡ (t, ok listed)
    → (p : Text)
    → In p (paths items) ↔ (
        (k : Text) × (x : LogFile) × (get t.log_files k ≡ some x)
        × (x.server_id ≡ server_id)
        × (x.path ≡ p)
        × (x.is_active ≡ true))
unfolding existing
sync-IsExact draw now s t server_id items listed keyed stand done p = (
  λ i.
      let (d, j, q) = path_of items i in
      subst (λ z. IsActive server_id (paths items) (list_log_files_by_server s server_id) t z) q
        (found-IsActive s server_id items draw now t listed stand done d j),
  λ (k, x, g, own, q, active).
      subst (λ z. In z (paths items)) q
        (sync-deactivates draw now s t server_id items listed keyed done k x g own active),
)
  where
    path_of :
        (ds : List DiscoveredLog) → In p (paths ds) → (d : DiscoveredLog) × In d ds × (d.path ≡ p)
    path_of [] i = elim i [ ]
    path_of (d ∷ ds) (inl q) = (d, inl refl, sym q)
    path_of (d ∷ ds) (inr i) = let (e, j, r) = path_of ds i in (e, inr j, r)
