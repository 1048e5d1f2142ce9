-- ===== src/Health.antt =====
-- internal/service/health/service.go. A time.Duration is an int64 of nanoseconds. The clock is read
-- once for each call of `now`; its value is an argument. The repository is the in-memory one.
pub mod Backoff
pub mod Records
use log_integrity.Prelude.{
  ℕ, zero, suc, ◌+◌, ◌-◌, ◌*◌, ◌/◌, Bool, true, false, ◌||◌, Option, none, some, List, Text, length,
  take, is_empty, if◌then◌else◌, ltb, leb, nat_beq, codes,
}
use log_integrity.Prelude.Int.{ℤ, pos, negsuc, add64, ltb_ℤ, leb_ℤ, beq_ℤ, pos_part, ◌+ℤ◌}
use log_integrity.Models.{Server, ServerStatus, Time}
use log_integrity.Repository.{Error, Result, ok, err}

pub record Options : Type 0 where
  pub failure_threshold : ℤ
  pub backoff_base : ℤ
  pub backoff_max : ℤ
  pub last_error_max_length : ℤ

abbrev default_last_error_max_length : ℤ
default_last_error_max_length = pos 2048

unfoldable pub normalize_options : Options → Options
normalize_options options = record options {
  failure_threshold =
      if leb_ℤ options.failure_threshold (pos 0) then pos 1 else options.failure_threshold;
  last_error_max_length =
      if beq_ℤ options.last_error_max_length (pos 0)
      then default_last_error_max_length
      else options.last_error_max_length;
}

-- A nil service or a nil server is never skipped.
unfoldable pub should_skip : Time → Server → Bool
should_skip now server = elim server.backoff_until [ none ↦ false | some until ↦ ltb now until ]

-- The loop of nextBackoffUntil with the given number of steps left.
-- The steps of the loop: `count - threshold`, for a count that is not below the threshold.
abbrev pub steps_past : ℤ → ℤ → ℕ
steps_past (pos t) (pos c) = c - t
steps_past (pos t) (negsuc c) = 0
steps_past (negsuc t) c = 0

unfoldable pub backoff_loop : ℕ → ℕ → ℕ → ℕ
backoff_loop zero limit duration = duration
backoff_loop (suc steps) limit duration =
    let rest = backoff_loop steps limit (duration * 2) in
    if leb (limit / 2) duration then limit else rest

abbrev pub cap : ℕ → ℕ → ℕ
cap limit duration = if ltb limit duration then limit else duration

-- nextBackoffUntil. The base and the limit are positive where the loop runs, and so is the
-- difference of the counts where it is taken.
unfoldable pub next_backoff_until : Options → Time → ℤ → Option Time
unfolding backoff_loop
next_backoff_until options now count =
    if leb_ℤ options.backoff_base (pos 0) || leb_ℤ options.backoff_max (pos 0)
    then none
    else if ltb_ℤ count options.failure_threshold
    then none
    else some (
        now
        + cap (pos_part options.backoff_max) (
            backoff_loop (steps_past options.failure_threshold count) (pos_part options.backoff_max)
              (pos_part options.backoff_base)))

-- lastErrorFromMessage
unfoldable pub last_error_from_message : Options → Text → Text
last_error_from_message options message =
    let value = if is_empty message then codes "unknown server health error" else message in
    if leb_ℤ options.last_error_max_length (pos 0)
      || leb_ℤ (pos (length value)) options.last_error_max_length
    then value
    else take (pos_part options.last_error_max_length) value

-- lastError: the text of the error, if there is one.
unfoldable pub last_error : Options → Option Text → Text
unfolding last_error_from_message
last_error options none = last_error_from_message options (codes "unknown server health error")
last_error options (some message) = last_error_from_message options message
