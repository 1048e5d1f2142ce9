-- ===== src/Locks.antt =====
-- crons/locks/manager.go: the locks of the background jobs, by key. The set of the held keys is the
-- state; an unlock function carries the key of its TryLock.
use log_integrity.Prelude.{
  ◌≡◌, ap, Bool, true, false, none, some, [], Text, ◌==◌, text_eq, arith, if◌then◌else◌, beq_refl,
  text_beq_iff,
}
use log_integrity.Prelude.GoMap.{GoMap, get, put, delete, get-put, get-delete}

abbrev pub Manager : Type 0
Manager = GoMap Text (Unit {0})

-- NewManager
abbrev pub new_manager : Manager
new_manager = []

-- TryLock: whether the key was free.
unfoldable pub try_lock : Manager → Text → Manager × Bool
try_lock m key = elim (get m key) [ none ↦ (put m key tt, true) | some held ↦ (m, false) ]

-- The function that a successful TryLock returns.
unfoldable pub unlock : Manager → Text → Manager
unlock m key = delete m key

abbrev pub holds : Manager → Text → Bool
holds m key = elim (get m key) [ none ↦ false | some held ↦ true ]

-- TryLock succeeds exactly if the key is not held, and the key is held after it either way, so
-- that a second call fails; no other key changes, and after the unlock exactly that key is free.
pub try_lock-IsExclusive :
    (m : Manager) (key other : Text)
    → ((try_lock m key).1 ≡ (if holds m key then false else true))
      × (holds (try_lock m key).0 other ≡ (if key == other then true else holds m other))
      × ((try_lock (try_lock m key).0 key).1 ≡ false)
      × (holds (unlock (try_lock m key).0 key) other
          ≡ (if key == other then false else holds m other))
unfolding try_lock unlock
try_lock-IsExclusive m key other = ground (
  arith,
  get-put m key tt other,
  get-put m key tt key,
  get-delete m key other,
  get-delete (put m key tt) key other,
  beq_refl key,
  text_beq_iff key other,
  ap (get m),
)
