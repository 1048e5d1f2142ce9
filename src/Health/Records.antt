-- ===== src/Health/Records.antt =====
-- internal/service/health/service.go: the records of remote operations, over the in-memory servers. The
-- service is not nil.
use log_integrity.Prelude.{
  ◌≡◌, refl, ap, ◌∙◌, Bool, false, Option, none, some, Text, [], text_eq, ltb,
}
use log_integrity.Prelude.GoMap.{get, put, get-put_self}
use log_integrity.Prelude.Int.{pos, add64}
use log_integrity.Models.{Server, ServerStatus, Time}
use log_integrity.Repository.{Result, ok, err}
use log_integrity.Memory.{Storage}
use log_integrity.Memory.Servers.{
  get_server_by_id, update_server, record_server_success, record_server_failure,
  record_server_failure-stored, failed_server, update_server-stored, name_or_host_taken,
}
use log_integrity.Health.{
  Options, should_skip, next_backoff_until, last_error, last_error_from_message,
}

-- RecordSuccess
unfoldable pub record_success : Storage → Text → Time → Time → Storage × Result (Unit {0})
unfolding record_server_success
record_success s id seen_at now = record_server_success s id seen_at now

-- RecordFailure: the backoff is of the count that the given model has, and one more.
unfoldable pub record_failure :
    Options → Storage → Server → Option Text → Time → Time → Storage × Result (Unit {0})
unfolding record_server_failure next_backoff_until last_error
record_failure options s server message backoff_from now =
    record_server_failure s server.id (last_error options message)
      (next_backoff_until options backoff_from (add64 server.failure_count (pos 1))) now

-- mutateServer
mutate_server : Storage → Text → Time → (Server → Server) → Storage × Result (Unit {0})
unfolding get_server_by_id update_server
mutate_server s id now mutate = elim (get_server_by_id s id) [
  | err x ↦ (s, err x)
  | ok server ↦ update_server s now (mutate server)
]

-- The server after a recorded degradation, but for the time of the update.
abbrev pub degraded_server : Options → Text → Time → Server → Server
degraded_server options detail seen_at server = record server {
  status = ServerStatus.degraded;
  failure_count = pos 0;
  last_error = last_error_from_message options detail;
  last_seen_at = some seen_at;
  backoff_until = none;
}

-- RecordDegraded
unfoldable pub record_degraded :
    Options → Storage → Text → Text → Time → Time → Storage × Result (Unit {0})
unfolding mutate_server last_error_from_message
record_degraded options s id detail seen_at now =
    mutate_server s id now (degraded_server options detail seen_at)

mutate_server-stored :
    (s : Storage) (id : Text) (now : Time) (mutate : Server → Server) (server : Server)
    → get s.servers id ≡ some server
    → mutate_server s id now mutate ≡ update_server s now (mutate server)
unfolding mutate_server get_server_by_id
mutate_server-stored s id now mutate server h =
    ap
      (λ (r : Result Server). elim r as (λ z. Storage × Result (Unit {0})) [
        | err x ↦ (s, err x)
        | ok x ↦ update_server s now (mutate x)
      ])
      found
  where
    found : get_server_by_id s id ≡ ok server
    found = rw (h, get_server_by_id) refl

-- RecordDegraded of a stored server that no other one clashes with.
pub record_degraded-stored :
    (options : Options) (s : Storage) (server : Server) (detail : Text) (seen_at now : Time)
    → get s.servers server.id ≡ some server
    → name_or_host_taken s server.name server.host server.id ≡ false
    → (x : Server) × (record_degraded options s server.id detail seen_at now
        ≡ (record s { servers = put s.servers server.id x }, ok tt))
      × (x.status ≡ ServerStatus.degraded)
unfolding record_degraded
record_degraded-stored options s server detail seen_at now h free = (
  _,
  mutate_server-stored s server.id now (degraded_server options detail seen_at) server h
      ∙ update_server-stored s now (degraded_server options detail seen_at server) server h free,
  refl,
)

abbrev reactivated : ServerStatus → ServerStatus
reactivated ServerStatus.unset = ServerStatus.unset
reactivated ServerStatus.active = ServerStatus.active
reactivated ServerStatus.degraded = ServerStatus.degraded
reactivated ServerStatus.inactive = ServerStatus.inactive
reactivated ServerStatus.error = ServerStatus.active

-- ClearBackoff
unfoldable pub clear_backoff : Storage → Text → Time → Storage × Result (Unit {0})
unfolding mutate_server
clear_backoff s id now = mutate_server s id now (λ server. record server {
  failure_count = pos 0;
  last_error = [];
  backoff_until = none;
  status = reactivated server.status;
})

-- Whether a pause that ends at the given time holds at another.
abbrev pub paused_at : Time → Option Time → Bool
paused_at at none = false
paused_at at (some until) = ltb at until

-- For a server as it is stored, RecordFailure stores it with one failure more, wrapped around as
-- an int64, and the server is skipped exactly as long as the backoff of that new count says.
pub record_failure-Pauses :
    (options : Options) (s : Storage) (server : Server) (message : Option Text)
    (backoff_from now at : Time)
    → get s.servers server.id ≡ some server
    → (x : Server) × (get
          (record_failure options s server message backoff_from now).0.servers
          server.id
        ≡ some x)
      × (x.failure_count ≡ add64 server.failure_count (pos 1))
      × (should_skip at x ≡ paused_at at (next_backoff_until options backoff_from x.failure_count))
unfolding record_failure should_skip
record_failure-Pauses options s server message backoff_from now at h = (
  x,
  ap (λ (r : Storage × Result (Unit {0})). get r.0.servers server.id)
        (record_server_failure-stored s server.id (last_error options message) until now server h)
      ∙ get-put_self s.servers server.id x,
  refl,
  pause until,
)
  where
    until : Option Time
    until = next_backoff_until options backoff_from (add64 server.failure_count (pos 1))

    x : Server
    x = failed_server server (last_error options message) until now

    pause : (o : Option Time) → elim o [ none ↦ false | some t ↦ ltb at t ] ≡ paused_at at o
    pause none = refl
    pause (some t) = refl
