-- ===== src/ServerService/Discover.antt =====
-- internal/service/server/service.go: Discover over one server or all of them, with the locks and the
-- record of the health. The verb %q of fmt is a parameter.
use log_integrity.Prelude.{ℕ, suc, some, List, [], ◌∷◌, ◌++◌, Text, text_eq, codes, if◌then◌else◌}
use log_integrity.Prelude.GoMap.{GoMap, put}
use log_integrity.Models.{Server, LogFile, Time}
use log_integrity.Repository.{Result, ok, err}
use log_integrity.Memory.{Storage}
use log_integrity.Memory.Entries.{Draws}
use log_integrity.Memory.Servers.{get_server_by_id}
use log_integrity.Memory.Listings.Servers.{list_servers}
use log_integrity.Health.{Options}
use log_integrity.Health.Records.{record_success, record_failure}
use log_integrity.Locks.{Manager, try_lock, unlock}
use log_integrity.Collector.Remote.{Client}
use log_integrity.Integrity.Check.{error_text}
use log_integrity.CheckService.{server_key}
use log_integrity.Discovery.Sync.{Discoverers, discover_and_sync}

pub record DiscoverResult : Type 0 where
  pub log_files : List LogFile
  pub error : Text

-- What the round of one server reads of the outside: its client, drawn identifiers, and the times of the
-- storage and of the record of the health.
pub record Round : Type 0 where
  pub client : Client
  pub draw : Draws
  pub stored_at : Time
  pub seen_at : Time
  pub recorded_at : Time

-- resolveServers
unfoldable pub resolve_servers : Storage → Text → Result (List Server)
unfolding list_servers get_server_by_id
resolve_servers s [] = ok (list_servers s)
resolve_servers s (c ∷ id) = elim (get_server_by_id s (c ∷ id)) [
  | err x ↦ err x
  | ok server ↦ ok (server ∷ [])
]

module _ (options : Options) (discoverers : Discoverers) (quoted : Text → Text) where
  -- The record of the health of a server, and what Discover reports of it.
  unfoldable pub recorded :
      Round → Server → Storage × Result (List LogFile) → Storage × DiscoverResult
  unfolding record_failure record_success
  recorded round server (s, err x) = (
    (record_failure options s server (some (error_text x)) round.seen_at round.recorded_at).0,
    record { log_files = []; error = error_text x },
  )
  recorded round server (s, ok files) = (
    (record_success s server.id round.seen_at round.recorded_at).0,
    record { log_files = files; error = [] },
  )

  -- One round of the loop, with the lock.
  unfoldable pub discover_server :
      Round → Manager → Storage → Server → Manager × Storage × DiscoverResult
  unfolding try_lock unlock discover_and_sync recorded
  discover_server round locks s server =
      let (held, free) = try_lock locks (server_key server.id) in
      let (t, result) =
        recorded round server
          (discover_and_sync round.draw round.stored_at s discoverers round.client server) in
      if free then (unlock held (server_key server.id), t, result) else (
        held,
        s,
        record {
          log_files = [];
          error = codes "server " ++ quoted server.name ++ codes " is busy";
        },
      )

  -- The loop of Discover.
  unfoldable pub discover_servers :
      (ℕ → Round)
      → Manager
      → Storage
      → GoMap Text DiscoverResult
      → List Server
      → Manager × Storage × GoMap Text DiscoverResult
  unfolding discover_server
  discover_servers rounds locks s results [] = (locks, s, results)
  discover_servers rounds locks s results (server ∷ servers) =
      let (left, t, result) = discover_server (rounds 0) locks s server in
      discover_servers (λ i. rounds (suc i)) left t (put results server.id result) servers

  -- Discover
  unfoldable pub discover_all :
      (ℕ → Round)
      → Manager
      → Storage
      → Text
      → Manager × Storage × Result (GoMap Text DiscoverResult)
  unfolding resolve_servers discover_servers
  discover_all rounds locks s server_id = elim (resolve_servers s server_id) [
    | err x ↦ (locks, s, err x)
    | ok servers ↦
        let (left, t, results) = discover_servers rounds locks s [] servers in (left, t, ok results)
  ]
