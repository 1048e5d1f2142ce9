-- ===== src/Discovery/Sync.antt =====
-- internal/service/discovery/service.go: Discover, Sync and DiscoverAndSync, over the in-memory storage. A
-- discoverer is a parameter of Discover, by operating system.
use log_integrity.Prelude.{
  suc, ◌||◌, ◌&&◌, not, Bool, true, false, Option, none, some, List, [], ◌∷◌, Text, ◌==◌, text_eq,
  if◌then◌else◌, codes, contains, map,
}
use log_integrity.Prelude.GoMap.{GoMap, get, put}
use log_integrity.Prelude.Int.{pos}
use log_integrity.Models.{LogFile, OsType, Server, Time}
use log_integrity.Models.Names.{log_type_name}
use log_integrity.Repository.{Result, ok, err, failed}
use log_integrity.Memory.{Storage, after}
use log_integrity.Memory.Entries.{Draws}
use log_integrity.Memory.Servers.{update_server}
use log_integrity.Memory.LogFiles.{create_log_file, update_log_file}
use log_integrity.Memory.Listings.Files.{list_log_files_by_server}
use log_integrity.Collector.Remote.{Client, no_identity}
use log_integrity.Discovery.{DiscoveredLog, detect_os_type}

-- The map of the existing files by path; of two files with one path the later one counts.
unfoldable pub files_by_path : GoMap Text LogFile → List LogFile → GoMap Text LogFile
files_by_path m [] = m
files_by_path m (file ∷ files) = files_by_path (put m file.path file) files

-- The model that Sync creates for a new path.
abbrev pub discovered_file : Text → DiscoveredLog → LogFile
discovered_file server_id item = record {
  id = [];
  server_id = server_id;
  path = item.path;
  log_type = item.log_type;
  file_identity = no_identity;
  meta = [];
  last_scanned_at = none;
  last_line_number = pos 0;
  last_byte_offset = pos 0;
  is_active = true;
  created_at = 0;
}

abbrev pub is_current : LogFile → DiscoveredLog → Bool
is_current file item =
    (log_type_name file.log_type == log_type_name item.log_type) && file.is_active

abbrev pub revived : LogFile → DiscoveredLog → LogFile
revived file item = record file { log_type = item.log_type; is_active = true }

-- The loop of Sync over the discovered files. An existing file is shared by its pointer: what one round
-- changes, a later round with the same path sees.
unfoldable pub sync_discovered :
    Draws
    → Time
    → Text
    → Storage
    → GoMap Text LogFile
    → List DiscoveredLog
    → Storage × Result (Unit {0})
unfolding create_log_file update_log_file
sync_discovered draw now server_id s known [] = (s, ok tt)
sync_discovered draw now server_id s known (item ∷ items) = elim (get known item.path) [
  | some file ↦
      if is_current file item
      then sync_discovered draw now server_id s known items
      else after (update_log_file s (revived file item)) (λ t.
        sync_discovered draw now server_id t (put known item.path (revived file item)) items)
  | none ↦
      after (create_log_file s (draw 0) now (discovered_file server_id item))
        (λ t. sync_discovered (λ i. draw (suc i)) now server_id t known items)
]

abbrev pub paths : List DiscoveredLog → List Text
paths items = map (λ (d : DiscoveredLog). d.path) items

-- The loop of Sync over the existing files.
unfoldable pub deactivate_missing : List Text → Storage → List LogFile → Storage × Result (Unit {0})
unfolding update_log_file
deactivate_missing found s [] = (s, ok tt)
deactivate_missing found s (file ∷ files) =
    if contains found file.path || not file.is_active
    then deactivate_missing found s files
    else after (update_log_file s (record file { is_active = false }))
        (λ t. deactivate_missing found t files)

-- Sync
unfoldable pub sync :
    Draws → Time → Storage → Text → List DiscoveredLog → Storage × Result (List LogFile)
unfolding list_log_files_by_server files_by_path sync_discovered deactivate_missing
sync draw now s server_id items =
    let existing = list_log_files_by_server s server_id in
    after (sync_discovered draw now server_id s (files_by_path [] existing) items) (λ t.
      after (deactivate_missing (paths items) t existing)
        (λ u. (u, ok (list_log_files_by_server u server_id))))

abbrev pub Discoverers : Type 0
Discoverers = OsType → Option (Client → Result (List DiscoveredLog))

abbrev discover_on : Storage → Discoverers → Client → OsType → Storage × Result (List DiscoveredLog)
discover_on s discoverers client os = elim (discoverers os) [
  | none ↦ (s, err (failed (codes "discovery: unsupported os")))
  | some discoverer ↦ (s, discoverer client)
]

-- The part of Discover for a server whose system is not known.
abbrev detect_and_discover :
    Time → Storage → Discoverers → Client → Server → Storage × Result (List DiscoveredLog)
detect_and_discover now s discoverers client server = elim (detect_os_type client) [
  | err x ↦ (s, err x)
  | ok os ↦
      after (update_server s now (record server { os_type = os }))
        (λ t. discover_on t discoverers client os)
]

-- Discover, with a repository of servers.
unfoldable pub discover :
    Time → Storage → Discoverers → Client → Server → Storage × Result (List DiscoveredLog)
unfolding detect_os_type update_server
discover now s discoverers client server = elim (client.connect server) [
  | err x ↦ (s, err x)
  | ok u ↦ elim server.os_type [
    | OsType.unset ↦ detect_and_discover now s discoverers client server
    | OsType.linux ↦ discover_on s discoverers client OsType.linux
    | OsType.windows ↦ discover_on s discoverers client OsType.windows
    | OsType.macos ↦ discover_on s discoverers client OsType.macos
  ]
]

-- DiscoverAndSync
unfoldable pub discover_and_sync :
    Draws → Time → Storage → Discoverers → Client → Server → Storage × Result (List LogFile)
unfolding discover sync
discover_and_sync draw now s discoverers client server =
    let (t, found) = discover now s discoverers client server in
    elim found [ err x ↦ (t, err x) | ok items ↦ sync draw now t server.id items ]
