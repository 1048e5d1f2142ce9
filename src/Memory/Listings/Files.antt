-- ===== src/Memory/Listings/Files.antt =====
-- internal/repository/memory/logfiles.go, entries.go and checks.go: the listings of log files, entries
-- and check results.
use log_integrity.Prelude.{
  ◌&&◌, not, Bool, true, Option, none, some, List, [], ◌∷◌, Text, ◌==◌, text_eq, nat_beq, keep,
  if◌then◌else◌, codes, ltb,
}
use log_integrity.Prelude.GoMap.{values}
use log_integrity.Prelude.Sort.{sort_by}
use log_integrity.Prelude.Order.{ltb_text}
use log_integrity.Prelude.Decimal.{format_int}
use log_integrity.Prelude.Int.{pos, ltb_ℤ, beq_ℤ}
use log_integrity.Models.{LogFile, LogEntry, CheckResult}
use log_integrity.Models.Names.{log_type_name, check_status_name}
use log_integrity.Models.Problem.{
  severity_for_check_status, problem_type_for_check_status, severity_name, problem_type_name,
}
use log_integrity.Repository.Filters.{
  Page, LogFileListFilter, LogEntryListFilter, CheckResultListFilter,
}
use log_integrity.Memory.{Storage}
use log_integrity.Memory.Listings.{matches_search, accepts, time_value, sorted_page}

abbrev pub path_less : LogFile → LogFile → Bool
path_less a b = if a.path == b.path then ltb_text a.id b.id else ltb_text a.path b.path

-- ListLogFilesByServer
unfoldable pub list_log_files_by_server : Storage → Text → List LogFile
unfolding ltb_text
list_log_files_by_server s server_id =
    sort_by path_less (keep (λ f. f.server_id == server_id) (values s.log_files))

abbrev server_path_less : LogFile → LogFile → Bool
server_path_less a b =
    if a.server_id == b.server_id then ltb_text a.path b.path else ltb_text a.server_id b.server_id

-- ListActiveLogFiles
unfoldable pub list_active_log_files : Storage → List LogFile
unfolding ltb_text
list_active_log_files s = sort_by server_path_less (keep (λ f. f.is_active) (values s.log_files))

abbrev pub last_line_less : LogFile → LogFile → Bool
last_line_less a b =
    if beq_ℤ a.last_line_number b.last_line_number
    then ltb_text a.path b.path
    else ltb_ℤ a.last_line_number b.last_line_number

-- compareLogFiles
unfoldable pub compare_log_files : Text → LogFile → LogFile → Bool
unfolding ltb_text
compare_log_files by a b =
    if by == codes "last_scanned"
    then ltb (time_value a.last_scanned_at) (time_value b.last_scanned_at)
    else if by == codes "last_line"
    then last_line_less a b
    else if by == codes "created"
    then ltb a.created_at b.created_at
    else path_less a b

abbrev wanted_active : Option Bool → Bool → Bool
wanted_active none b = true
wanted_active (some w) b = if w then b else not b

-- The conditions of the loop of ListLogFilesFiltered.
unfoldable pub log_file_matches : LogFileListFilter → LogFile → Bool
unfolding matches_search
log_file_matches filter item =
    accepts filter.server_id item.server_id
    && wanted_active filter.is_active item.is_active
    && accepts filter.log_type (log_type_name item.log_type)
    && matches_search filter.options.q
        (item.id ∷ item.server_id ∷ item.path ∷ log_type_name item.log_type ∷ [])

-- ListLogFilesFiltered
unfoldable pub list_log_files_filtered : Storage → LogFileListFilter → Option (Page LogFile)
unfolding log_file_matches compare_log_files sorted_page
list_log_files_filtered s filter =
    sorted_page compare_log_files filter.options
      (keep (log_file_matches filter) (values s.log_files))

abbrev pub entry_line_less : LogEntry → LogEntry → Bool
entry_line_less a b =
    if beq_ℤ a.line_number b.line_number
    then ltb_text a.id b.id
    else ltb_ℤ a.line_number b.line_number

-- compareLogEntries
unfoldable pub compare_log_entries : Text → LogEntry → LogEntry → Bool
unfolding ltb_text
compare_log_entries by a b =
    if by == codes "collected_at" then ltb a.collected_at b.collected_at else entry_line_less a b

-- The conditions of the loop of ListLogEntriesFiltered.
unfoldable pub log_entry_matches : LogEntryListFilter → LogEntry → Bool
unfolding matches_search format_int
log_entry_matches filter item =
    accepts filter.log_file_id item.log_file_id
    && not (ltb_ℤ (pos 0) filter.from_line && ltb_ℤ item.line_number filter.from_line)
    && not (ltb_ℤ (pos 0) filter.to_line && ltb_ℤ filter.to_line item.line_number)
    && matches_search filter.options.q
        (item.id ∷ item.log_file_id ∷ item.content ∷ item.hash ∷ format_int item.line_number ∷ [])

-- ListLogEntriesFiltered
unfoldable pub list_log_entries_filtered : Storage → LogEntryListFilter → Option (Page LogEntry)
unfolding log_entry_matches compare_log_entries sorted_page
list_log_entries_filtered s filter =
    sorted_page compare_log_entries filter.options
      (keep (log_entry_matches filter) (values s.entries))

abbrev checked_less : CheckResult → CheckResult → Bool
checked_less a b = ltb a.checked_at b.checked_at

abbrev pub check_status_less : CheckResult → CheckResult → Bool
check_status_less a b =
    if check_status_name a.status == check_status_name b.status
    then checked_less a b
    else ltb_text (check_status_name a.status) (check_status_name b.status)

abbrev pub tampered_less : CheckResult → CheckResult → Bool
tampered_less a b =
    if nat_beq a.tampered_lines b.tampered_lines
    then checked_less a b
    else ltb a.tampered_lines b.tampered_lines

-- compareCheckResults
unfoldable pub compare_check_results : Text → CheckResult → CheckResult → Bool
unfolding ltb_text
compare_check_results by a b =
    if by == codes "status"
    then check_status_less a b
    else if by == codes "tampered_lines"
    then tampered_less a b
    else checked_less a b

-- The conditions of the loop of ListCheckResultsFiltered.
unfoldable pub check_result_matches : CheckResultListFilter → CheckResult → Bool
unfolding matches_search
check_result_matches filter item =
    accepts filter.log_file_id item.log_file_id
    && accepts filter.status (check_status_name item.status)
    && accepts filter.severity (severity_name (severity_for_check_status item.status))
    && accepts filter.problem_type (problem_type_name (problem_type_for_check_status item.status))
    && matches_search filter.options.q
        (item.id ∷ item.log_file_id ∷ item.error_message ∷ check_status_name item.status ∷ [])

-- ListCheckResultsFiltered
unfoldable pub list_check_results_filtered :
    Storage → CheckResultListFilter → Option (Page CheckResult)
unfolding check_result_matches compare_check_results sorted_page
list_check_results_filtered s filter =
    sorted_page compare_check_results filter.options
      (keep (check_result_matches filter) (values s.checks))
