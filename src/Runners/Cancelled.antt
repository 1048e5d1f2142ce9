-- ===== src/Runners/Cancelled.antt =====
-- A run that is cancelled before its first file.
use log_integrity.Prelude.{◌≡◌, ap, ◌∙◌, true, false, some, List, ◌∷◌, Text, text_eq}
use log_integrity.Prelude.GoMap.{get, get-put_self}
use log_integrity.Models.{Server, ServerStatus, LogFile, Time}
use log_integrity.Hasher.{Crypto}
use log_integrity.Memory.{Storage}
use log_integrity.Memory.Servers.{record_server_success-stored}
use log_integrity.Health.{Options, should_skip}
use log_integrity.Health.Records.{record_success}
use log_integrity.Locks.{Manager, try_lock}
use log_integrity.Collector.Remote.{Client}
use log_integrity.CheckService.{run_files, record_summary, server_key}
use log_integrity.Runners.{
  is_inactive, active_files, work_on, guarded, check_active, process_integrity,
}

guarded-works :
    (at : Time) (locks : Manager) (s : Storage) (server : Server)
    (work : Storage → List LogFile → Storage) (file : LogFile) (files : List LogFile)
    → is_inactive server.status ≡ false
    → should_skip at server ≡ false
    → (try_lock locks (server_key server.id)).1 ≡ true
    → active_files s server ≡ file ∷ files
    → (guarded at locks s server work).1 ≡ work s (file ∷ files)
unfolding guarded
guarded-works at locks s server work file files a b c d = rw (a, b, c) (ap (work_on s work) d)

-- For a stored server that is not inactive and not paused, with a free lock and an active log
-- file: if the context is cancelled before the first file is checked, processServer of the
-- integrity runner still records a success, and the server is stored as active, whatever it was
-- before.
pub process_integrity_cancelled :
    (crypto : Crypto) (key : Text) (quoted : Text → Text) (options : Options) (stamp : _)
    (at seen_at now : Time) (client : Client) (locks : Manager) (s : Storage) (server : Server)
    (file : LogFile) (files : List LogFile)
    → get s.servers server.id ≡ some server
    → is_inactive server.status ≡ false
    → should_skip at server ≡ false
    → (try_lock locks (server_key server.id)).1 ≡ true
    → active_files s server ≡ file ∷ files
    → (x : Server) × (get
          (process_integrity crypto key quoted 0 options stamp at seen_at now client locks s
            server).1.servers
          server.id
        ≡ some x)
      × (x.status ≡ ServerStatus.active)
unfolding process_integrity guarded check_active run_files record_summary record_success
process_integrity_cancelled crypto key quoted options stamp at seen_at now client locks s server
      file files h a b c d =
    let (x, e, q) = record_server_success-stored s server.id seen_at now server h in
    (
      x,
      ap (λ t. get t.servers server.id)
            (guarded-works at locks s server
                (check_active crypto key quoted 0 options stamp seen_at now client server) file
                files a b c d
              ∙ ap (λ r. r.0) e)
          ∙ get-put_self s.servers server.id x,
      q,
    )
