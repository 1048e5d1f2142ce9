-- ===== src/Memory/Listings/Servers.antt =====
-- internal/repository/memory/servers.go: ListServers and ListServersFiltered.
use log_integrity.Prelude.{
  ℕ, ◌&&◌, Bool, Option, List, [], ◌∷◌, Text, ◌==◌, text_eq, keep, if◌then◌else◌, codes, ltb,
}
use log_integrity.Prelude.GoMap.{values}
use log_integrity.Prelude.Sort.{sort_by}
use log_integrity.Prelude.Order.{ltb_text}
use log_integrity.Prelude.Int.{ltb_ℤ, beq_ℤ}
use log_integrity.Models.{Server, ServerStatus}
use log_integrity.Models.Names.{server_status_name, os_type_name, managed_by_name, auth_type_name}
use log_integrity.Repository.Filters.{Page, ServerListFilter}
use log_integrity.Memory.{Storage}
use log_integrity.Memory.Listings.{matches_search, accepts, time_value, sorted_page}

abbrev pub name_less : Server → Server → Bool
name_less a b = if a.name == b.name then ltb_text a.id b.id else ltb_text a.name b.name

-- ListServers
unfoldable pub list_servers : Storage → List Server
unfolding ltb_text
list_servers s = sort_by name_less (values s.servers)

-- serverStatusRank
abbrev pub server_status_rank : ServerStatus → ℕ
server_status_rank ServerStatus.unset = 0
server_status_rank ServerStatus.active = 1
server_status_rank ServerStatus.inactive = 2
server_status_rank ServerStatus.degraded = 3
server_status_rank ServerStatus.error = 4

abbrev pub status_less : Server → Server → Bool
status_less a b =
    if server_status_name a.status == server_status_name b.status
    then ltb_text a.name b.name
    else ltb (server_status_rank a.status) (server_status_rank b.status)

abbrev pub failures_less : Server → Server → Bool
failures_less a b =
    if beq_ℤ a.failure_count b.failure_count
    then ltb_text a.name b.name
    else ltb_ℤ a.failure_count b.failure_count

-- compareServers
unfoldable pub compare_servers : Text → Server → Server → Bool
unfolding ltb_text
compare_servers by a b =
    if by == codes "status"
    then status_less a b
    else if by == codes "last_seen"
    then ltb (time_value a.last_seen_at) (time_value b.last_seen_at)
    else if by == codes "failures"
    then failures_less a b
    else name_less a b

-- The conditions of the loop of ListServersFiltered.
unfoldable pub server_matches : ServerListFilter → Server → Bool
unfolding matches_search
server_matches filter item =
    accepts filter.status (server_status_name item.status)
    && accepts filter.os_type (os_type_name item.os_type)
    && accepts filter.managed_by (managed_by_name item.managed_by)
    && accepts filter.auth_type (auth_type_name item.auth_type)
    && matches_search filter.options.q
        (item.id ∷ item.name ∷ item.host ∷ item.username ∷ item.last_error ∷ [])

-- ListServersFiltered
unfoldable pub list_servers_filtered : Storage → ServerListFilter → Option (Page Server)
unfolding server_matches compare_servers sorted_page
list_servers_filtered s filter =
    sorted_page compare_servers filter.options (keep (server_matches filter) (values s.servers))
