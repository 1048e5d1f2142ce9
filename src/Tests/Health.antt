-- ===== src/Tests/Health.antt =====
-- The third failure with a threshold of two, and one lock.
use log_integrity.Prelude.{
  some, ◌∷◌, [], suc, ◌+◌, ◌-◌, ◌*◌, ◌^◌, ◌≡◌, refl, true, false, none, ltb, codes, ◌==◌, text_eq,
  if◌then◌else◌,
}
use log_integrity.Prelude.Classes.{text_beq}
use log_integrity.Prelude.GoMap.{get}
use log_integrity.Prelude.Int.{pos, add64}
use log_integrity.Models.{Server, AuthType, OsType, ServerStatus, ManagedBy}
use log_integrity.Memory.{Storage, new_storage}
use log_integrity.Health.Records.{record_failure, record_failure-Pauses, paused_at}
use log_integrity.Health.{should_skip, Options, normalize_options, cap, next_backoff_until}
use log_integrity.Health.Backoff.{next_backoff_until-Doubles}
use log_integrity.Locks.{new_manager, try_lock, unlock, holds, try_lock-IsExclusive}

abbrev pub options : Options
options = record {
  failure_threshold = pos 2;
  backoff_base = pos 30;
  backoff_max = pos 100;
  last_error_max_length = pos 0;
}

next_backoff_until-Doubles_example :
    next_backoff_until (normalize_options options) 1000 (pos 3)
    ≡ (if ltb 3 (suc 1) then none else some (1000 + cap (suc 49 * 2) (suc 29 * 2 ^ (3 - suc 1))))
next_backoff_until-Doubles_example =
    next_backoff_until-Doubles options 1000 1 3 29 49 refl refl refl

try_lock-IsExclusive_example :
    ((try_lock new_manager (codes "a")).1 ≡ (if holds new_manager (codes "a") then false else true))
    × (holds (try_lock new_manager (codes "a")).0 (codes "b")
        ≡ (if codes "a" == codes "b" then true else holds new_manager (codes "b")))
    × ((try_lock (try_lock new_manager (codes "a")).0 (codes "a")).1 ≡ false)
    × (holds (unlock (try_lock new_manager (codes "a")).0 (codes "a")) (codes "b")
        ≡ (if codes "a" == codes "b" then false else holds new_manager (codes "b")))
try_lock-IsExclusive_example = try_lock-IsExclusive new_manager (codes "a") (codes "b")

abbrev pub server : Server
server = record {
  id = codes "s";
  name = codes "web";
  host = codes "web.local";
  port = 22;
  username = codes "ops";
  auth_type = AuthType.key;
  auth_value = [];
  os_type = OsType.linux;
  status = ServerStatus.active;
  managed_by = ManagedBy.api;
  success_count = pos 1;
  failure_count = pos 2;
  last_error = [];
  last_seen_at = none;
  backoff_until = none;
  created_at = 1;
  updated_at = 1;
}

abbrev pub one_server : Storage
one_server = record new_storage { servers = (codes "s", server) ∷ [] }

record_failure-Pauses_example :
    (x : Server) × (get
        (record_failure options one_server server none 1000 1001).0.servers
        (codes "s")
      ≡ some x)
    × (x.failure_count ≡ add64 (pos 2) (pos 1))
    × (should_skip 1010 x ≡ paused_at 1010 (next_backoff_until options 1000 x.failure_count))
unfolding new_storage get text_beq
record_failure-Pauses_example =
    record_failure-Pauses options one_server server none 1000 1001 1010 refl
