-- ===== src/ServerService.antt =====
-- internal/service/server/service.go: the operations on monitored servers, over the in-memory storage.
pub mod Problems
pub mod Dashboard
pub mod Discover
pub mod Owned
pub mod Lifecycle
use log_integrity.Prelude.{
  Bool, true, ◌||◌, Option, List, [], ◌∷◌, Text, ◌==◌, text_eq, is_empty, nat_beq, if◌then◌else◌,
}
use log_integrity.Prelude.Strings.{equal_fold}
use log_integrity.Models.{Server, ServerStatus, ManagedBy, Time}
use log_integrity.Repository.{conflict, Result, ok, err, ◌>>◌, fail_if}
use log_integrity.Memory.{Storage}
use log_integrity.Memory.Servers.{create_server, update_server, get_server_by_id}
use log_integrity.Memory.Listings.Servers.{list_servers}
use log_integrity.Memory.LogFiles.{delete_server}
use log_integrity.Health.Records.{clear_backoff}

-- The loop of ensureUniqueIdentity.
unfoldable pub check_unique : List Server → Server → Text → Result (Unit {0})
unfolding equal_fold
check_unique [] server excluded = ok tt
check_unique (item ∷ rest) server excluded =
    let later = check_unique rest server excluded in
    if item.id == excluded
    then later
    else fail_if (equal_fold item.name server.name) conflict
      >> fail_if (equal_fold item.host server.host) conflict
      >> later

-- ensureUniqueIdentity
unfoldable pub ensure_unique_identity : Storage → Server → Text → Result (Unit {0})
unfolding list_servers check_unique
ensure_unique_identity s server excluded = check_unique (list_servers s) server excluded

-- ensureAPIServerMutable
unfoldable pub ensure_api_server_mutable : ManagedBy → Result (Unit {0})
ensure_api_server_mutable ManagedBy.unset = err conflict
ensure_api_server_mutable ManagedBy.config = err conflict
ensure_api_server_mutable ManagedBy.api = ok tt

abbrev pub or_status : ServerStatus → ServerStatus → ServerStatus
or_status ServerStatus.unset default = default
or_status ServerStatus.active default = ServerStatus.active
or_status ServerStatus.degraded default = ServerStatus.degraded
or_status ServerStatus.inactive default = ServerStatus.inactive
or_status ServerStatus.error default = ServerStatus.error

abbrev or_managed_by_api : ManagedBy → ManagedBy
or_managed_by_api ManagedBy.unset = ManagedBy.api
or_managed_by_api ManagedBy.config = ManagedBy.config
or_managed_by_api ManagedBy.api = ManagedBy.api

-- The model that Create hands on.
abbrev pub with_defaults : Server → Server
with_defaults server = record server {
  status = or_status server.status ServerStatus.active;
  port = if nat_beq server.port 0 then 22 else server.port;
  managed_by = or_managed_by_api server.managed_by;
}

-- Create
unfoldable pub create : Storage → Text → Time → Server → Storage × Result (Unit {0})
unfolding ensure_unique_identity create_server
create s drawn now server = elim (ensure_unique_identity s (with_defaults server) []) [
  | err x ↦ (s, err x)
  | ok u ↦ create_server s drawn now (with_defaults server)
]

-- The model that Update hands on: what was given, with the lifecycle of the stored server.
abbrev pub merged : Server → Server → Server
merged server current = record server {
  port = if nat_beq server.port 0 then 22 else server.port;
  auth_value = if is_empty server.auth_value then current.auth_value else server.auth_value;
  status = or_status server.status current.status;
  managed_by = current.managed_by;
  created_at = current.created_at;
  success_count = current.success_count;
  failure_count = current.failure_count;
  last_error = current.last_error;
  last_seen_at = current.last_seen_at;
  backoff_until = current.backoff_until;
}

-- Update
unfoldable pub update : Storage → Time → Server → Storage × Result (Unit {0})
unfolding get_server_by_id ensure_api_server_mutable ensure_unique_identity update_server
update s now server = elim (get_server_by_id s server.id) [
  | err x ↦ (s, err x)
  | ok current ↦ elim (ensure_api_server_mutable current.managed_by) [
    | err x ↦ (s, err x)
    | ok u ↦ elim (ensure_unique_identity s (merged server current) current.id) [
      | err x ↦ (s, err x)
      | ok v ↦ update_server s now (merged server current)
    ]
  ]
]

-- Delete
unfoldable pub delete : Storage → Text → Storage × Result (Unit {0})
unfolding get_server_by_id ensure_api_server_mutable delete_server
delete s id = elim (get_server_by_id s id) [
  | err x ↦ (s, err x)
  | ok current ↦ elim (ensure_api_server_mutable current.managed_by) [
    | err x ↦ (s, err x)
    | ok u ↦ delete_server s id
  ]
]

-- Retry
unfoldable pub retry : Storage → Text → Time → Storage × Result Server
unfolding clear_backoff get_server_by_id
retry s id now =
    let (cleared, result) = clear_backoff s id now in
    elim result [ err x ↦ (cleared, err x) | ok u ↦ (cleared, get_server_by_id cleared id) ]
