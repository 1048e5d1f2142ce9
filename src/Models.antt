-- ===== src/Models.antt =====
-- The domain models: models/*.go. A time is a number of nanoseconds, 0 the zero time; a pointer that
-- may be nil is an `Option`; a string type with constants is a data type, `unset` its empty string.
pub mod Names
pub mod Problem
use log_integrity.Prelude.{ℕ, Bool, Option, Text}
use log_integrity.Prelude.GoMap.{GoMap}
use log_integrity.Prelude.Int.{ℤ}

-- A time.Time.
abbrev pub Time : Type 0
Time = ℕ

pub data CheckStatus : Type 0 where
  ok tampered error : CheckStatus

pub data ServerStatus : Type 0 where
  unset active degraded inactive error : ServerStatus

pub data ManagedBy : Type 0 where
  unset config api : ManagedBy

pub data OsType : Type 0 where
  unset linux windows macos : OsType

pub data AuthType : Type 0 where
  unset password key : AuthType

pub data LogType : Type 0 where
  syslog auth nginx apache eventlog kernel app unknown : LogType

pub record Server : Type 0 where
  pub id : Text
  pub name : Text
  pub host : Text
  pub port : ℕ
  pub username : Text
  pub auth_type : AuthType
  pub auth_value : Text
  pub os_type : OsType
  pub status : ServerStatus
  pub managed_by : ManagedBy
  pub success_count : ℤ
  pub failure_count : ℤ
  pub last_error : Text
  pub last_seen_at : Option Time
  pub backoff_until : Option Time
  pub created_at : Time
  pub updated_at : Time

pub record FileIdentity : Type 0 where
  pub device_id : Text
  pub inode : Text
  pub volume_id : Text
  pub file_id : Text
  pub event_log : Text
  pub size_bytes : ℤ
  pub mod_time_unix : ℤ

pub record LogFile : Type 0 where
  pub id : Text
  pub server_id : Text
  pub path : Text
  pub log_type : LogType
  pub file_identity : FileIdentity
  pub meta : GoMap Text Text
  pub last_scanned_at : Option Time
  pub last_line_number : ℤ
  pub last_byte_offset : ℤ
  pub is_active : Bool
  pub created_at : Time

pub record LogEntry : Type 0 where
  pub id : Text
  pub log_file_id : Text
  pub line_number : ℤ
  pub content : Text
  pub hash : Text
  pub collected_at : Time

pub record LogChunk : Type 0 where
  pub id : Text
  pub log_file_id : Text
  pub chunk_number : ℤ
  pub from_line_number : ℤ
  pub to_line_number : ℤ
  pub from_byte_offset : ℤ
  pub to_byte_offset : ℤ
  pub entries_count : ℕ
  pub hash : Text
  pub hash_algorithm : Text
  pub created_at : Time

pub record CheckResult : Type 0 where
  pub id : Text
  pub log_file_id : Text
  pub checked_at : Time
  pub status : CheckStatus
  pub total_lines : ℕ
  pub tampered_lines : ℕ
  pub error_message : Text

pub record TamperedEntry : Type 0 where
  pub line_number : ℤ
  pub stored_hash : Text
  pub current_hash : Text
  pub current_content : Text

pub data JobType : Type 0 where
  discover collect integrity : JobType

pub data JobStatus : Type 0 where
  queued running succeeded failed canceled : JobStatus

pub record Job : Type 0 where
  pub id : Text
  pub job_type : JobType
  pub status : JobStatus
  pub idempotency_key : Text
  pub fingerprint : Text
  pub server_id : Text
  pub log_file_id : Text
  pub error : Text
  pub result : Option Text
  pub created_at : Time
  pub started_at : Option Time
  pub finished_at : Option Time
