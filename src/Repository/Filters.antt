-- ===== src/Repository/Filters.antt =====
-- internal/repository/filters.go. A filter on an enumeration is the string that the caller gives, which
-- need not be one of the constants.
use log_integrity.Prelude.{ℕ, Bool, Option, List, Text}
use log_integrity.Prelude.Int.{ℤ}

pub record Page (A : Type 0) : Type 0 where
  pub items : List A
  pub total : ℕ
  pub offset : ℤ
  pub limit : ℤ

pub record ListOptions : Type 0 where
  pub q : Text
  pub offset : ℤ
  pub limit : ℤ
  pub sort : Text
  pub order : Text

pub record ServerListFilter : Type 0 where
  pub options : ListOptions
  pub status : Text
  pub os_type : Text
  pub managed_by : Text
  pub auth_type : Text

pub record LogFileListFilter : Type 0 where
  pub options : ListOptions
  pub server_id : Text
  pub is_active : Option Bool
  pub log_type : Text

pub record LogEntryListFilter : Type 0 where
  pub options : ListOptions
  pub log_file_id : Text
  pub from_line : ℤ
  pub to_line : ℤ

pub record CheckResultListFilter : Type 0 where
  pub options : ListOptions
  pub log_file_id : Text
  pub status : Text
  pub severity : Text
  pub problem_type : Text
