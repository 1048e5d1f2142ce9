-- ===== src/Discovery/Others.antt =====
-- Sync leaves the log files of the other servers alone.
use log_integrity.Prelude.{
  suc, ◌≡◌, ◌≢◌, sym, ap, ◌∙◌, ◌||◌, ◌&&◌, not, Bool, true, false, Option, none, some, List, [],
  ◌∷◌, Text, ◌==◌, text_eq, text_beq_iff, is_empty, beq_ne, if◌then◌else◌, if_elim, Option-elim,
  arith, All, In-All, In-keep_inv, contains,
}
use log_integrity.Prelude.GoMap.{GoMap, get, put, values, get-put, get-put_ne}
use log_integrity.Prelude.Sort.{sort_by-In}
use log_integrity.Models.{LogFile, Time}
use log_integrity.Repository.{Result, ok, Result-elim}
use log_integrity.Memory.{Storage, after}
use log_integrity.Memory.Entries.{Draws, exists}
use log_integrity.Memory.LogFiles.{
  create_log_file, update_log_file, by_path, taken_by_other, completed_file,
}
use log_integrity.Memory.Listings.Files.{list_log_files_by_server, path_less}
use log_integrity.Discovery.{DiscoveredLog}
use log_integrity.Discovery.Sync.{
  files_by_path, discovered_file, is_current, revived, sync_discovered, paths, deactivate_missing,
  sync,
}

module _ (server_id k : Text) (other : LogFile) (apart : other.server_id ≢ server_id) where
  abbrev Kept : {B : Type 0} → Storage × Result B → Type 0
  Kept r = get r.0.log_files k ≡ some other

  -- An update of a file of this server.
  update_log_file-Kept :
      (s : Storage) (file : LogFile)
      → get s.log_files k ≡ some other
      → file.server_id ≡ server_id
      → Kept (update_log_file s file)
  unfolding update_log_file
  update_log_file-Kept s file h e =
      Option-elim (λ (r : Storage × Result (Unit {0})). Kept r) (get s.log_files file.id) _ _
        (λ q. h)
        (λ current q.
          if_elim (λ (r : Storage × Result (Unit {0})). Kept r)
            (not (current.server_id == file.server_id)) _ _ (λ p. h)
            (λ p.
              if_elim (λ (r : Storage × Result (Unit {0})). Kept r)
                (not (current.path == file.path)
                  && taken_by_other (get (by_path s file.server_id) file.path) file.id)
                _ _ (λ r. h)
                (λ r.
                  get-put_ne s.log_files file.id file k (
                    beq_ne file.id k (λ same. apart (
                      ap (λ (f : LogFile). f.server_id)
                        (some_inj (sym h ∙ ap (get s.log_files) (sym same) ∙ q))
                      ∙ equal current.server_id file.server_id p
                      ∙ e)))
                  ∙ h)))
    where
      some_inj : {a b : LogFile} → some a ≡ some b → a ≡ b
      some_inj p = cc

      equal : (a b : Text) → not (a == b) ≡ false → a ≡ b
      equal a b p = ground (arith, text_beq_iff a b)

  create_log_file-Kept :
      (s : Storage) (drawn : Text) (now : Time) (file : LogFile)
      → get s.log_files k ≡ some other
      → Kept (create_log_file s drawn now file)
  unfolding create_log_file
  create_log_file-Kept s drawn now file h =
      if_elim (λ (r : Storage × Result (Unit {0})). Kept r)
        (not (exists (get s.servers file.server_id))) _ _ (λ q. h)
        (λ q.
          if_elim (λ (r : Storage × Result (Unit {0})). Kept r) (exists (get s.log_files id)) _ _
            (λ p. h)
            (λ p.
              if_elim (λ (r : Storage × Result (Unit {0})). Kept r)
                (exists (get (by_path s file.server_id) file.path)) _ _ (λ r. h)
                (λ r.
                  get-put_ne s.log_files id (completed_file file id now) k
                    (beq_ne id k (λ same. clash (ap (get s.log_files) same ∙ h) p))
                  ∙ h)))
    where
      id : Text
      id = if is_empty file.id then drawn else file.id

      clash : {o : Option LogFile} → o ≡ some other → exists o ≡ false → ⊥
      clash a b = ground arith

  after-Kept :
      {B : Type 0} (r : Storage × Result (Unit {0})) (next : Storage → Storage × Result B)
      → Kept r
      → Kept (next r.0)
      → Kept (after r next)
  after-Kept r next h n =
      Result-elim (λ (x : Storage × Result _). Kept x) r.1 _ _ (λ x q. h) (λ u q. n)

  -- Every file of the map is of the server.
  abbrev Own : GoMap Text LogFile → Type 0
  Own m = (path : Text) (file : LogFile) → get m path ≡ some file → file.server_id ≡ server_id

  put-Own :
      (m : GoMap Text LogFile) (path : Text) (file : LogFile)
      → Own m
      → file.server_id ≡ server_id
      → Own (put m path file)
  put-Own m path file h e p f g = pick (path == p) (sym (get-put m path file p) ∙ g)
    where
      pick : (b : Bool) → (if b then some file else get m p) ≡ some f → f.server_id ≡ server_id
      pick true q = ap (λ (x : LogFile). x.server_id) (sym (some_inj q)) ∙ e
        where
          some_inj : {a b : LogFile} → some a ≡ some b → a ≡ b
          some_inj r = cc
      pick false q = h p f q

  files_by_path-Own :
      (m : GoMap Text LogFile) (files : List LogFile)
      → Own m
      → All (λ (f : LogFile). f.server_id ≡ server_id) files
      → Own (files_by_path m files)
  unfolding files_by_path
  files_by_path-Own m [] h a = h
  files_by_path-Own m (file ∷ files) h a =
      files_by_path-Own (put m file.path file) files (put-Own m file.path file h a.0) a.1

  sync_discovered-Kept :
      (draw : Draws) (now : Time) (s : Storage) (known : GoMap Text LogFile)
      (items : List DiscoveredLog)
      → Own known
      → get s.log_files k ≡ some other
      → Kept (sync_discovered draw now server_id s known items)
  unfolding sync_discovered
  sync_discovered-Kept draw now s known [] o h = h
  sync_discovered-Kept draw now s known (item ∷ items) o h =
      Option-elim (λ (r : Storage × Result (Unit {0})). Kept r) (get known item.path) _ _
        (λ q.
          let kept = create_log_file-Kept s (draw 0) now (discovered_file server_id item) h in
          after-Kept (create_log_file s (draw 0) now (discovered_file server_id item))
            (λ t. sync_discovered (λ i. draw (suc i)) now server_id t known items) kept
            (sync_discovered-Kept (λ i. draw (suc i)) now _ known items o kept))
        (λ file q.
          if_elim (λ (r : Storage × Result (Unit {0})). Kept r) (is_current file item) _ _
            (λ p. sync_discovered-Kept draw now s known items o h)
            (λ p.
              let kept = update_log_file-Kept s (revived file item) h (o item.path file q) in
              after-Kept (update_log_file s (revived file item))
                (λ t.
                  sync_discovered draw now server_id t (put known item.path (revived file item))
                    items)
                kept
                (sync_discovered-Kept draw now _ (put known item.path (revived file item)) items
                  (put-Own known item.path (revived file item) o (o item.path file q)) kept)))

  deactivate_missing-Kept :
      (found : List Text) (s : Storage) (files : List LogFile)
      → All (λ (f : LogFile). f.server_id ≡ server_id) files
      → get s.log_files k ≡ some other
      → Kept (deactivate_missing found s files)
  unfolding deactivate_missing
  deactivate_missing-Kept found s [] a h = h
  deactivate_missing-Kept found s (file ∷ files) a h =
      if_elim (λ (r : Storage × Result (Unit {0})). Kept r)
        (contains found file.path || not file.is_active) _ _
        (λ q. deactivate_missing-Kept found s files a.1 h)
        (λ q.
          let kept = update_log_file-Kept s (record file { is_active = false }) h a.0 in
          after-Kept (update_log_file s (record file { is_active = false }))
            (λ t. deactivate_missing found t files) kept
            (deactivate_missing-Kept found (update_log_file s (record file { is_active = false })).0
              files a.1 kept))

own_files :
    (s : Storage) (server_id : Text)
    → All (λ (f : LogFile). f.server_id ≡ server_id) (list_log_files_by_server s server_id)
unfolding list_log_files_by_server
own_files s server_id = In-All _ _ (λ f i.
    (text_beq_iff f.server_id server_id).0
      (In-keep_inv (λ (x : LogFile). x.server_id == server_id) f (values s.log_files)
        (sort_by-In path_less f _ i)).1)

-- Sync for one server leaves every stored log file of another server as it is, whatever was
-- discovered and whatever it returns.
pub sync-keeps_other_servers :
    (draw : Draws) (now : Time) (s : Storage) (server_id : Text) (items : List DiscoveredLog)
    (k : Text) (other : LogFile)
    → get s.log_files k ≡ some other
    → other.server_id ≢ server_id
    → get (sync draw now s server_id items).0.log_files k ≡ some other
unfolding sync get
sync-keeps_other_servers draw now s server_id items k other h apart =
    let existing = list_log_files_by_server s server_id in
    let first = sync_discovered draw now server_id s (files_by_path [] existing) items in
    let kept =
      sync_discovered-Kept server_id k other apart draw now s (files_by_path [] existing) items
        (files_by_path-Own server_id k other apart [] existing (λ p f q. empty f q)
          (own_files s server_id))
        h in
    let kept' =
      deactivate_missing-Kept server_id k other apart (paths items) first.0 existing
        (own_files s server_id) kept in
    let listed : Storage → Storage × Result (List LogFile) =
      λ u. (u, ok (list_log_files_by_server u server_id)) in
    after-Kept server_id k other apart first
      (λ t. after (deactivate_missing (paths items) t existing) listed) kept
      (after-Kept server_id k other apart (deactivate_missing (paths items) first.0 existing) listed
        kept' kept')
  where
    empty : (f : LogFile) → none ≡ some f → f.server_id ≡ server_id
    empty f q = cc
