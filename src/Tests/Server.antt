-- ===== src/Tests/Server.antt =====
-- Requests of the API on one stored server, its problems and the dashboard.
use log_integrity.Prelude.{
  ◌≡◌, refl, false, some, List, [], ◌∷◌, ◌++◌, arith, Text, codes, text_eq, In, ◌==◌, ◌↔◌,
}
use log_integrity.Prelude.Classes.{text_beq}
use log_integrity.Prelude.GoMap.{get, values}
use log_integrity.Prelude.Sort.{sort_by, IsOrdered}
use log_integrity.Prelude.Int.{pos}
use log_integrity.Models.{Server, ManagedBy}
use log_integrity.Models.Problem.{SystemProblem}
use log_integrity.Repository.{ok}
use log_integrity.Repository.Filters.{Page, ServerListFilter}
use log_integrity.Memory.{Storage, new_storage}
use log_integrity.Memory.Registry.{IsRegistry}
use log_integrity.Memory.Listings.{directed}
use log_integrity.Memory.Listings.Servers.{compare_servers, server_matches, list_servers_filtered}
use log_integrity.Memory.Listings.Pages.{IsPage, list_servers_filtered-IsPage}
use log_integrity.ServerService.{update}
use log_integrity.ServerService.Owned.{
  create_request, delete_request, answer, answer-keeps_config_server, answer-IsRegistry,
}
use log_integrity.ServerService.Lifecycle.{IsKept, update-IsKept}
use log_integrity.ServerService.Problems.{Formats, more_urgent, list_problems}
use log_integrity.ServerService.Problems.Exact.{OfServer, Some, list_problems-IsExact}
use log_integrity.ServerService.Dashboard.{Dashboard, dashboard}
use log_integrity.ServerService.Dashboard.Counts.{IsCount, dashboard-IsCount}
use log_integrity.Tests.Health.{server, one_server}

abbrev filter : ServerListFilter
filter = record {
  options = record {
    q = codes "WEB";
    offset = pos 0;
    limit = pos 5;
    sort = codes "name";
    order = codes "asc";
  };
  status = codes "active";
  os_type = [];
  managed_by = [];
  auth_type = [];
}

list_servers_filtered-IsPage_example :
    (page : Page Server) × (list_servers_filtered one_server filter ≡ some page)
    × IsPage
        (directed compare_servers filter.options)
        (values one_server.servers)
        (server_matches filter)
        0
        5
        page
unfolding new_storage
list_servers_filtered-IsPage_example =
    list_servers_filtered-IsPage one_server filter 0 5 refl refl (omega arith) (omega arith)

abbrev configured : Server
configured = record server { managed_by = ManagedBy.config }

abbrev one_configured : Storage
one_configured = record new_storage { servers = (codes "s", configured) ∷ [] }

answer-keeps_config_server_example :
    get (answer one_configured (delete_request (codes "s"))).0.servers (codes "s") ≡ some configured
unfolding new_storage get text_beq
answer-keeps_config_server_example =
    answer-keeps_config_server one_configured (delete_request (codes "s")) (codes "s") configured
      refl (λ p. absurd (cc))

no_servers-IsRegistry : IsRegistry new_storage.servers
unfolding new_storage get
no_servers-IsRegistry = record {
  keyed = λ k x p. absurd (cc);
  apart = λ j k x y p q d. absurd (cc);
}

answer-IsRegistry_example :
    IsRegistry (answer new_storage (create_request (codes "s") 5 server)).0.servers
answer-IsRegistry_example =
    answer-IsRegistry new_storage (create_request (codes "s") 5 server) (λ p. absurd (cc))
      no_servers-IsRegistry

abbrev renamed : Server
renamed = record server { name = codes "web2" }

update-IsKept_example :
    (current : Server) × (x : Server) × (get one_server.servers (codes "s") ≡ some current)
    × (get (update one_server 9 renamed).0.servers (codes "s") ≡ some x)
    × IsKept current renamed 9 x
    × ((k : Text)
        → (codes "s" == k) ≡ false
        → get (update one_server 9 renamed).0.servers k ≡ get one_server.servers k)
unfolding update new_storage get text_beq sort_by
update-IsKept_example = update-IsKept one_server (update one_server 9 renamed).0 9 renamed refl

abbrev formats : Formats
formats = record { rfc3339 = λ t. t ∷ []; quoted = λ s. codes "'" ++ s ++ codes "'" }

list_problems-IsExact_example :
    (ps : List SystemProblem) × (list_problems formats one_server ≡ ok ps)
    × IsOrdered more_urgent ps
    × ((p : SystemProblem)
        → In p ps
          ↔ Some formats one_server (values one_server.servers) (OfServer formats one_server) p)
list_problems-IsExact_example = list_problems-IsExact formats one_server

dashboard-IsCount_example :
    (d : Dashboard) × (ps : List SystemProblem) × (dashboard formats one_server ≡ ok d)
    × (list_problems formats one_server ≡ ok ps)
    × IsCount one_server (values one_server.servers) ps d
dashboard-IsCount_example = dashboard-IsCount formats one_server
