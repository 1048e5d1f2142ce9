-- ===== src/Discovery/Missing.antt =====
-- Sync deactivates the log files that were not discovered.
use mathlib.Core.Path.{subst}
use log_integrity.Prelude.{
  ◌≡◌, ap, inl, inr, true, some, List, [], ◌∷◌, Text, ◌==◌, text_eq, text_beq_iff, All, In-All, In,
  In-keep, contains, contains→In, In→contains, Bool-cases,
}
use log_integrity.Prelude.GoMap.{GoMap, get, values, get→In}
use log_integrity.Prelude.Sort.{In-sort_by}
use log_integrity.Models.{LogFile, Time}
use log_integrity.Repository.{Error, Result, ok, err, Result-elim}
use log_integrity.Memory.{Storage}
use log_integrity.Memory.Entries.{Draws}
use log_integrity.Memory.Listings.Files.{list_log_files_by_server, path_less}
use log_integrity.Discovery.{DiscoveredLog}
use log_integrity.Discovery.Sync.{files_by_path, sync_discovered, paths, deactivate_missing, sync}
use log_integrity.Discovery.Pending.{
  Pending, empty-Named, files_by_path-Named, sync_discovered-Pending, deactivate_missing-Pending,
}

In-values : (m : GoMap Text LogFile) (k : Text) (x : LogFile) → In (k, x) m → In x (values m)
In-values [] k x i = elim i [ ]
In-values ((j, y) ∷ m) k x (inl q) = inl (ap (λ (r : Text × LogFile). r.1) q)
In-values ((j, y) ∷ m) k x (inr i) = inr (In-values m k x i)

-- If every log file is stored under its own identifier and Sync for a server returns no error,
-- then no stored log file of the server is active unless its path was discovered.
pub sync-deactivates :
    (draw : Draws) (now : Time) (s t : Storage) (server_id : Text) (items : List DiscoveredLog)
    (listed : List LogFile)
    → ((k : Text) (x : LogFile) → get s.log_files k ≡ some x → x.id ≡ k)
    → sync draw now s server_id items ≡ (t, ok listed)
    → (k : Text) (x : LogFile) → get t.log_files k ≡ some x
    → x.server_id ≡ server_id
    → x.is_active ≡ true
    → In x.path (paths items)
unfolding sync list_log_files_by_server
sync-deactivates draw now s t server_id items listed keyed done k x g own active =
    elim (Bool-cases (contains (paths items) x.path)) [
      | inl seen ↦ contains→In (paths items) x.path seen
      | inr unseen ↦ elim (at_end done k x g (own, unseen, active)).0 [ ]
    ]
  where
    existing : List LogFile
    existing = list_log_files_by_server s server_id

    P : Storage × Result (List LogFile) → Type 0
    P r = r ≡ (t, ok listed) → Pending server_id (paths items) [] t

    clash :
        {u : Storage} {e : Error}
        → ◌≡◌ {A = Storage × Result (List LogFile)} (u, err e) (t, ok listed)
        → ⊥
    clash q = cc

    all_seen : All (λ (d : DiscoveredLog). contains (paths items) d.path ≡ true) items
    all_seen = In-All _ _ (λ d i. In→contains (paths items) d.path (In-paths d items i))
      where
        In-paths : (d : DiscoveredLog) (ds : List DiscoveredLog) → In d ds → In d.path (paths ds)
        In-paths d [] i = elim i [ ]
        In-paths d (e ∷ ds) (inl q) = inl (ap (λ (r : DiscoveredLog). r.path) q)
        In-paths d (e ∷ ds) (inr i) = inr (In-paths d ds i)

    first : Storage × Result (Unit {0})
    first = sync_discovered draw now server_id s (files_by_path [] existing) items

    at_start : Pending server_id (paths items) existing s
    at_start j y h missing = (
      In-sort_by path_less y _ (
          In-keep (λ (f : LogFile). f.server_id == server_id) y (values s.log_files)
            (In-values s.log_files j y (get→In s.log_files j y h))
            ((text_beq_iff y.server_id server_id).1 missing.0)),
      keyed j y h,
    )

    at_end : P (sync draw now s server_id items)
    at_end =
        Result-elim P first.1 _ _ (λ e q bad. absurd (clash bad))
          (λ u q.
            let second = deactivate_missing (paths items) first.0 existing in
            Result-elim P second.1 _ _ (λ e r bad. absurd (clash bad))
              (λ v r good.
                subst (Pending server_id (paths items) [])
                  (ap (λ (p : Storage × Result (List LogFile)). p.0) good)
                  (deactivate_missing-Pending server_id (paths items) first.0 existing
                    (sync_discovered-Pending server_id (paths items) existing draw now s
                      (files_by_path [] existing) items all_seen
                      (files_by_path-Named server_id (paths items) [] existing
                        (empty-Named server_id (paths items)))
                      at_start)
                    r)))
