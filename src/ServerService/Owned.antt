-- ===== src/ServerService/Owned.antt =====
-- A server of the configuration is not changed over the API, and the stored servers stay unique.
use log_integrity.Prelude.{
  ◌≡◌, refl, sym, ap, ◌∙◌, ◌≢◌, Bool, false, not, Option, none, some, List, [], ◌∷◌, Text, ◌==◌,
  text_eq, beq_ne, if_elim, arith, is_empty, if◌then◌else◌,
}
use log_integrity.Prelude.GoMap.{get, values, get-put_ne, get-delete}
use log_integrity.Models.{Server, ManagedBy, Time}
use log_integrity.Repository.{Result, ok, err, not_found}
use log_integrity.Memory.{Storage}
use log_integrity.Memory.Entries.{exists}
use log_integrity.Memory.Servers.{
  create_server, update_server, get_server_by_id, completed_server, name_or_host_taken,
}
use log_integrity.Repository.{Result-elim}
use log_integrity.Memory.Registry.{
  IsRegistry, create_server-IsRegistry, update_server-IsRegistry, fewer-IsRegistry,
}
use log_integrity.Memory.LogFiles.{
  delete_log_file_cascade, delete_log_files, delete_server, by_path,
}
use log_integrity.ServerService.{
  create, update, merged, delete, with_defaults, ensure_unique_identity, ensure_api_server_mutable,
}

-- What a client of the API can ask for.
pub data Request : Type 0 where
  create_request : Text → Time → Server → Request
  update_request : Time → Server → Request
  delete_request : Text → Request

unfoldable pub answer : Storage → Request → Storage × Result (Unit {0})
unfolding create update delete
answer s (create_request drawn now server) = create s drawn now server
answer s (update_request now server) = update s now server
answer s (delete_request id) = delete s id

-- The storage after the operation holds the given servers.
keeps_servers-delete_log_file_cascade :
    (s : Storage) (id : Text) → (delete_log_file_cascade s id).servers ≡ s.servers
unfolding delete_log_file_cascade
keeps_servers-delete_log_file_cascade s id = ground arith

keeps_servers-delete_log_files :
    (s : Storage) (ids : List Text) → (delete_log_files s ids).servers ≡ s.servers
unfolding delete_log_files
keeps_servers-delete_log_files s [] = refl
keeps_servers-delete_log_files s (id ∷ ids) =
    keeps_servers-delete_log_files (delete_log_file_cascade s id) ids
    ∙ keeps_servers-delete_log_file_cascade s id

get-delete_server :
    (s : Storage) (id k : Text)
    → (id == k) ≡ false
    → get (delete_server s id).0.servers k ≡ get s.servers k
unfolding delete_server
get-delete_server s id k n =
    if_elim (λ (r : Storage × Result (Unit {0})). get r.0.servers k ≡ get s.servers k)
      (exists (get s.servers id)) _ _
      (λ found.
        get-delete left.servers id k
        ∙ ap (λ b. if b then none else get left.servers k) n
        ∙ ap (λ m. get m k) (keeps_servers-delete_log_files s (values (by_path s id))))
      (λ missing. refl)
  where
    left : Storage
    left = delete_log_files s (values (by_path s id))

get-create_server :
    (s : Storage) (drawn : Text) (now : Time) (server : Server) (k : Text) (x : Server)
    → get s.servers k ≡ some x
    → get (create_server s drawn now server).0.servers k ≡ some x
unfolding create_server
get-create_server s drawn now server k x h =
    if_elim (λ (r : Storage × Result (Unit {0})). get r.0.servers k ≡ some x)
      (exists (get s.servers id)) _ _ (λ taken. h)
      (λ free.
        if_elim (λ (r : Storage × Result (Unit {0})). get r.0.servers k ≡ some x)
          (name_or_host_taken s server.name server.host []) _ _ (λ taken. h)
          (λ unique.
            get-put_ne s.servers id (completed_server server id now) k
              (beq_ne id k (λ q. absurd (clash (ap (get s.servers) q ∙ h) free)))
            ∙ h))
  where
    id : Text
    id = if is_empty server.id then drawn else server.id

    clash : {o : Option Server} → o ≡ some x → exists o ≡ false → ⊥
    clash p q = ground arith

get-update_server :
    (s : Storage) (now : Time) (server : Server) (k : Text)
    → (server.id == k) ≡ false
    → get (update_server s now server).0.servers k ≡ get s.servers k
unfolding update_server
get-update_server s now server k n =
    if_elim (λ (r : Storage × Result (Unit {0})). get r.0.servers k ≡ get s.servers k)
      (not (exists (get s.servers server.id))) _ _ (λ missing. refl)
      (λ found.
        if_elim (λ (r : Storage × Result (Unit {0})). get r.0.servers k ≡ get s.servers k)
          (name_or_host_taken s server.name server.host server.id) _ _ (λ taken. refl)
          (λ unique. get-put_ne s.servers server.id _ k n))

pub got :
    (s : Storage) (id : Text) (x : Server)
    → get_server_by_id s id ≡ ok x
    → get s.servers id ≡ some x
unfolding get_server_by_id
got s id x h = go (get s.servers id) h
  where
    go : (o : Option Server) → elim o [ none ↦ err not_found | some y ↦ ok y ] ≡ ok x → o ≡ some x
    go none q = ground arith
    go (some y) q = ground arith

pub mutable-api : (m : ManagedBy) → ensure_api_server_mutable m ≡ ok tt → m ≡ ManagedBy.api
unfolding ensure_api_server_mutable
mutable-api ManagedBy.unset p = ground arith
mutable-api ManagedBy.config p = ground arith
mutable-api ManagedBy.api p = refl

-- A server that may be changed is not one that the API does not manage.
mutable-other :
    (s : Storage) (id k : Text) (x current : Server)
    → get s.servers k ≡ some x
    → x.managed_by ≢ ManagedBy.api
    → get_server_by_id s id ≡ ok current
    → ensure_api_server_mutable current.managed_by ≡ ok tt
    → (id == k) ≡ false
mutable-other s id k x current h n q p = beq_ne id k (λ e. n (
    ap (λ y. y.managed_by) (same (sym h ∙ sym (ap (get s.servers) e) ∙ got s id current q))
    ∙ mutable-api current.managed_by p))
  where
    same : {a b : Server} → some a ≡ some b → a ≡ b
    same r = cc

-- No creation, update or deletion over the service changes a stored server that is not managed by
-- the API, whatever server the request names.
pub answer-keeps_config_server :
    (s : Storage) (request : Request) (k : Text) (x : Server)
    → get s.servers k ≡ some x
    → x.managed_by ≢ ManagedBy.api
    → get (answer s request).0.servers k ≡ some x
unfolding answer create update delete
answer-keeps_config_server s (create_request drawn now server) k x h n =
    Result-elim (λ (r : Storage × Result (Unit {0})). get r.0.servers k ≡ some x)
      (ensure_unique_identity s (with_defaults server) []) _ _ (λ e q. h)
      (λ u q. get-create_server s drawn now (with_defaults server) k x h)
answer-keeps_config_server s (update_request now server) k x h n =
    Result-elim (λ (r : Storage × Result (Unit {0})). get r.0.servers k ≡ some x)
      (get_server_by_id s server.id) _ _ (λ e q. h)
      (λ current q.
        Result-elim (λ (r : Storage × Result (Unit {0})). get r.0.servers k ≡ some x)
          (ensure_api_server_mutable current.managed_by) _ _ (λ e p. h)
          (λ u p.
            Result-elim (λ (r : Storage × Result (Unit {0})). get r.0.servers k ≡ some x)
              (ensure_unique_identity s (merged server current) current.id) _ _ (λ e r. h)
              (λ v r.
                get-update_server s now (merged server current) k
                  (mutable-other s server.id k x current h n q p)
                ∙ h)))
answer-keeps_config_server s (delete_request id) k x h n =
    Result-elim (λ (r : Storage × Result (Unit {0})). get r.0.servers k ≡ some x)
      (get_server_by_id s id) _ _ (λ e q. h)
      (λ current q.
        Result-elim (λ (r : Storage × Result (Unit {0})). get r.0.servers k ≡ some x)
          (ensure_api_server_mutable current.managed_by) _ _ (λ e p. h)
          (λ u p. get-delete_server s id k (mutable-other s id k x current h n q p) ∙ h))

-- The identifier that a creation draws is not empty.
abbrev pub HasDrawn : Request → Type 0
HasDrawn (create_request drawn now server) = drawn ≢ []
HasDrawn (update_request now server) = Unit
HasDrawn (delete_request id) = Unit

left-delete_server :
    (s : Storage) (id k : Text) (x : Server)
    → get (delete_server s id).0.servers k ≡ some x
    → get s.servers k ≡ some x
unfolding delete_server
left-delete_server s id k x =
    if_elim
      (λ (r : Storage × Result (Unit {0})). get r.0.servers k ≡ some x → get s.servers k ≡ some x)
      (exists (get s.servers id)) _ _
      (λ found g.
        sym (ap (λ m. get m k) (keeps_servers-delete_log_files s (values (by_path s id))))
        ∙ kept (id == k) _ (sym (get-delete _ id k) ∙ g))
      (λ missing g. g)
  where
    kept : (b : Bool) (o : Option Server) → (if b then none else o) ≡ some x → o ≡ some x
    kept b o q = ground arith

-- If every server is stored under its own identifier, which is not empty, and no two have the
-- same name or the same host up to case, then this still holds after any creation, update or
-- deletion over the service, if the identifier that a creation draws is not empty.
pub answer-IsRegistry :
    (s : Storage) (request : Request)
    → HasDrawn request
    → IsRegistry s.servers
    → IsRegistry (answer s request).0.servers
unfolding answer create update delete
answer-IsRegistry s (create_request drawn now server) n h =
    Result-elim (λ (r : Storage × Result (Unit {0})). IsRegistry r.0.servers)
      (ensure_unique_identity s (with_defaults server) []) _ _ (λ e q. h)
      (λ u q. create_server-IsRegistry s drawn now (with_defaults server) n h)
answer-IsRegistry s (update_request now server) n h =
    Result-elim (λ (r : Storage × Result (Unit {0})). IsRegistry r.0.servers)
      (get_server_by_id s server.id) _ _ (λ e q. h)
      (λ current q.
        Result-elim (λ (r : Storage × Result (Unit {0})). IsRegistry r.0.servers)
          (ensure_api_server_mutable current.managed_by) _ _ (λ e p. h)
          (λ u p.
            Result-elim (λ (r : Storage × Result (Unit {0})). IsRegistry r.0.servers)
              (ensure_unique_identity s (merged server current) current.id) _ _ (λ e r. h)
              (λ v r. update_server-IsRegistry s now (merged server current) h)))
answer-IsRegistry s (delete_request id) n h =
    Result-elim (λ (r : Storage × Result (Unit {0})). IsRegistry r.0.servers)
      (get_server_by_id s id) _ _ (λ e q. h)
      (λ current q.
        Result-elim (λ (r : Storage × Result (Unit {0})). IsRegistry r.0.servers)
          (ensure_api_server_mutable current.managed_by) _ _ (λ e p. h)
          (λ u p.
            fewer-IsRegistry s.servers (delete_server s id).0.servers (left-delete_server s id) h))
