-- ===== src/Memory/Servers.antt =====
-- internal/repository/memory/servers.go: the operations that change a server, and the lookup by name or
-- host. The order in which Go's loop visits the servers does not change whether there is one.
use log_integrity.Prelude.{
  ◌≡◌, refl, Bool, false, not, ◌&&◌, ◌||◌, Option, none, some, [], Text, ◌==◌, text_eq, is_empty,
  nat_beq, any, if◌then◌else◌,
}
use log_integrity.Prelude.GoMap.{get, put, values}
use log_integrity.Prelude.Int.{pos, add64}
use log_integrity.Prelude.Strings.{equal_fold}
use log_integrity.Models.{Server, ServerStatus, ManagedBy, Time}
use log_integrity.Repository.{not_found, conflict, Result, ok, err}
use log_integrity.Memory.{Storage}
use log_integrity.Memory.Entries.{exists}

abbrev pub clashes : Text → Text → Text → Server → Bool
clashes name host excluded item =
    not (item.id == excluded) && (equal_fold item.name name || equal_fold item.host host)

-- findServerByNameOrHostLocked finds a server.
unfoldable pub name_or_host_taken : Storage → Text → Text → Text → Bool
name_or_host_taken s name host excluded = any (clashes name host excluded) (values s.servers)

abbrev or_inactive : ServerStatus → ServerStatus
or_inactive ServerStatus.unset = ServerStatus.inactive
or_inactive ServerStatus.active = ServerStatus.active
or_inactive ServerStatus.degraded = ServerStatus.degraded
or_inactive ServerStatus.inactive = ServerStatus.inactive
or_inactive ServerStatus.error = ServerStatus.error

abbrev pub or_api : ManagedBy → ManagedBy
or_api ManagedBy.unset = ManagedBy.api
or_api ManagedBy.config = ManagedBy.config
or_api ManagedBy.api = ManagedBy.api

abbrev pub completed_server : Server → Text → Time → Server
completed_server server id now =
    let created = if nat_beq server.created_at 0 then now else server.created_at in
    record server {
      id = id;
      created_at = created;
      updated_at = if nat_beq server.updated_at 0 then created else server.updated_at;
      status = or_inactive server.status;
      managed_by = or_api server.managed_by;
    }

-- CreateServer
unfoldable pub create_server : Storage → Text → Time → Server → Storage × Result (Unit {0})
unfolding name_or_host_taken
create_server s drawn now server =
    let id = if is_empty server.id then drawn else server.id in
    if exists (get s.servers id)
    then (s, err conflict)
    else if name_or_host_taken s server.name server.host []
    then (s, err conflict)
    else (record s { servers = put s.servers id (completed_server server id now) }, ok tt)

-- GetServerByID
unfoldable pub get_server_by_id : Storage → Text → Result Server
get_server_by_id s id = elim (get s.servers id) [ none ↦ err not_found | some server ↦ ok server ]

-- UpdateServer
unfoldable pub update_server : Storage → Time → Server → Storage × Result (Unit {0})
unfolding name_or_host_taken
update_server s now server =
    if not (exists (get s.servers server.id))
    then (s, err not_found)
    else if name_or_host_taken s server.name server.host server.id
    then (s, err conflict)
    else (
      record s {
        servers =
            put s.servers server.id
              (record server { managed_by = or_api server.managed_by; updated_at = now });
      },
      ok tt,
    )

-- What the three operations below share: a change of a stored server.
change_server : Storage → Text → (Server → Server) → Storage × Result (Unit {0})
change_server s id change = elim (get s.servers id) [
  | none ↦ (s, err not_found)
  | some server ↦ (record s { servers = put s.servers id (change server) }, ok tt)
]

-- UpdateServerStatus
unfoldable pub update_server_status :
    Storage → Text → ServerStatus → Time → Storage × Result (Unit {0})
unfolding change_server
update_server_status s id status now =
    change_server s id (λ server. record server { status = status; updated_at = now })

-- RecordServerSuccess
unfoldable pub record_server_success : Storage → Text → Time → Time → Storage × Result (Unit {0})
unfolding change_server
record_server_success s id seen_at now = change_server s id (λ server. record server {
  status = ServerStatus.active;
  success_count = add64 server.success_count (pos 1);
  failure_count = pos 0;
  last_error = [];
  last_seen_at = some seen_at;
  backoff_until = none;
  updated_at = now;
})

-- The server after a recorded failure.
abbrev pub failed_server : Server → Text → Option Time → Time → Server
failed_server server last_error backoff_until now = record server {
  status = ServerStatus.error;
  failure_count = add64 server.failure_count (pos 1);
  last_error = last_error;
  backoff_until = backoff_until;
  updated_at = now;
}

-- RecordServerFailure
unfoldable pub record_server_failure :
    Storage → Text → Text → Option Time → Time → Storage × Result (Unit {0})
unfolding change_server
record_server_failure s id last_error backoff_until now =
    change_server s id (λ server. failed_server server last_error backoff_until now)

change_server-stored :
    (s : Storage) (id : Text) (change : Server → Server) (server : Server)
    → get s.servers id ≡ some server
    → change_server s id change ≡ (record s { servers = put s.servers id (change server) }, ok tt)
unfolding change_server
change_server-stored s id change server h = rw (h, change_server) refl

pub record_server_failure-stored :
    (s : Storage) (id last_error : Text) (backoff_until : Option Time) (now : Time)
    (server : Server)
    → get s.servers id ≡ some server
    → record_server_failure s id last_error backoff_until now ≡ (
      record s { servers = put s.servers id (failed_server server last_error backoff_until now) },
      ok tt,
    )
unfolding record_server_failure
record_server_failure-stored s id last_error backoff_until now server h =
    change_server-stored s id _ server h

pub record_server_success-stored :
    (s : Storage) (id : Text) (seen_at now : Time) (server : Server)
    → get s.servers id ≡ some server
    → (x : Server) × (record_server_success s id seen_at now
        ≡ (record s { servers = put s.servers id x }, ok tt))
      × (x.status ≡ ServerStatus.active)
unfolding record_server_success
record_server_success-stored s id seen_at now server h =
    (_, change_server-stored s id _ server h, refl)

-- An update of a stored server that no other one clashes with.
pub update_server-stored :
    (s : Storage) (now : Time) (server old : Server)
    → get s.servers server.id ≡ some old
    → name_or_host_taken s server.name server.host server.id ≡ false
    → update_server s now server ≡ (
      record s {
        servers =
            put s.servers server.id
              (record server { managed_by = or_api server.managed_by; updated_at = now });
      },
      ok tt,
    )
unfolding update_server
update_server-stored s now server old h free = rw (h, free, update_server) refl
