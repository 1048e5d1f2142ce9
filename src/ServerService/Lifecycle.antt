-- ===== src/ServerService/Lifecycle.antt =====
-- What Update keeps of the stored server.
use log_integrity.Prelude.{
  ◌≡◌, refl, sym, ap, ◌∙◌, false, not, some, Text, ◌==◌, text_eq, if_elim, is_empty, if◌then◌else◌,
}
use log_integrity.Prelude.GoMap.{get, get-put_self, get-put_ne}
use log_integrity.Models.{Server, ServerStatus, ManagedBy, Time}
use log_integrity.Repository.{Error, Result, ok, err, Result-elim}
use log_integrity.Memory.{Storage}
use log_integrity.Memory.Entries.{exists}
use log_integrity.Memory.Servers.{update_server, get_server_by_id, name_or_host_taken, or_api}
use log_integrity.ServerService.{
  update, merged, or_status, ensure_unique_identity, ensure_api_server_mutable,
}
use log_integrity.ServerService.Owned.{got, mutable-api}

-- What an update of `current` leaves as it was, and the time that it sets.
pub record IsKept (current : Server) (server : Server) (now : Time) (x : Server) : Type 0 where
  pub managed : (x.managed_by ≡ ManagedBy.api) × (current.managed_by ≡ ManagedBy.api)
  pub created : x.created_at ≡ current.created_at
  pub updated : x.updated_at ≡ now
  pub counts : (x.success_count ≡ current.success_count) × (x.failure_count ≡ current.failure_count)
  pub error : x.last_error ≡ current.last_error
  pub seen : (x.last_seen_at ≡ current.last_seen_at) × (x.backoff_until ≡ current.backoff_until)
  pub given : (x.id ≡ server.id) × (x.name ≡ server.name) × (x.host ≡ server.host)
  pub secret :
      x.auth_value ≡ (if is_empty server.auth_value then current.auth_value else server.auth_value)
  pub state : server.status ≡ ServerStatus.unset → x.status ≡ current.status

-- If Update returns no error, then the server was stored and is managed by the API, and it is
-- stored with the given name and host and with its own creation time, counts, last error, last
-- visit and backoff; without a given secret or status it keeps its own, and no other server
-- changes.
pub update-IsKept :
    (s t : Storage) (now : Time) (server : Server)
    → update s now server ≡ (t, ok tt)
    → (current : Server) × (x : Server) × (get s.servers server.id ≡ some current)
      × (get t.servers server.id ≡ some x)
      × IsKept current server now x
      × ((k : Text) → (server.id == k) ≡ false → get t.servers k ≡ get s.servers k)
unfolding update update_server
update-IsKept s t now server =
    Result-elim Kept (get_server_by_id s server.id) _ _ (λ e q r. absurd (failed e r))
      (λ current q.
        Result-elim Kept (ensure_api_server_mutable current.managed_by) _ _
          (λ e p r. absurd (failed e r))
          (λ u p.
            Result-elim Kept (ensure_unique_identity s (merged server current) current.id) _ _
              (λ e p r. absurd (failed e r))
              (λ v w.
                stored current (got s server.id current q) (mutable-api current.managed_by p))))
  where
    Kept : Storage × Result (Unit {0}) → Type 0
    Kept r =
        ◌≡◌ {A = Storage × Result (Unit {0})} r (t, ok tt)
        → (current : Server) × (x : Server) × (get s.servers server.id ≡ some current)
          × (get t.servers server.id ≡ some x)
          × IsKept current server now x
          × ((k : Text) → (server.id == k) ≡ false → get t.servers k ≡ get s.servers k)

    failed : (e : Error) → ◌≡◌ {A = Storage × Result (Unit {0})} (s, err e) (t, ok tt) → ⊥
    failed e r = cc

    stored :
        (current : Server)
        → get s.servers server.id ≡ some current
        → current.managed_by ≡ ManagedBy.api
        → Kept (update_server s now (merged server current))
    stored current g m =
        if_elim Kept (not (exists (get s.servers server.id))) _ _ (λ b r. absurd (failed _ r))
          (λ b.
            if_elim Kept (name_or_host_taken s server.name server.host server.id) _ _
              (λ taken r. absurd (failed _ r))
              (λ free r. (
                current,
                x,
                g,
                sym (ap (λ (u : Storage × Result (Unit {0})). get u.0.servers server.id) r)
                    ∙ get-put_self s.servers server.id x,
                record {
                  managed = (ap or_api m, m);
                  created = refl;
                  updated = refl;
                  counts = (refl, refl);
                  error = refl;
                  seen = (refl, refl);
                  given = (refl, refl, refl);
                  secret = refl;
                  state = λ q. ap (λ st. or_status st current.status) q;
                },
                λ k n.
                    sym (ap (λ (u : Storage × Result (Unit {0})). get u.0.servers k) r)
                    ∙ get-put_ne s.servers server.id x k n,
              )))
      where
        x : Server
        x = record (merged server current) {
          managed_by = or_api current.managed_by;
          updated_at = now;
        }
