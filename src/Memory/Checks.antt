-- ===== src/Memory/Checks.antt =====
-- internal/repository/memory/checks.go: the saved results of the integrity checks.
use log_integrity.Prelude.{
  Bool, not, none, some, List, [], ◌∷◌, ◌++◌, Text, text_eq, is_empty, nat_beq, ltb, if◌then◌else◌,
}
use log_integrity.Prelude.GoMap.{GoMap, get, put}
use log_integrity.Prelude.Sort.{sort_by}
use log_integrity.Models.{CheckResult, Time}
use log_integrity.Repository.{not_found, conflict, Result, ok, err}
use log_integrity.Memory.{Storage}
use log_integrity.Memory.Entries.{exists}
use log_integrity.Memory.Chunks.{last_of}
use log_integrity.Memory.LogFiles.{check_ids}

abbrev pub completed_result : CheckResult → Text → Time → CheckResult
completed_result result id now = record result {
  id = id;
  checked_at = if nat_beq result.checked_at 0 then now else result.checked_at;
}

-- CreateCheckResult
unfoldable pub create_check_result :
    Storage → Text → Time → CheckResult → Storage × Result (Unit {0})
create_check_result s drawn now result =
    let id = if is_empty result.id then drawn else result.id in
    if not (exists (get s.log_files result.log_file_id))
    then (s, err not_found)
    else if exists (get s.checks id)
    then (s, err conflict)
    else (
      record s {
        checks = put s.checks id (completed_result result id now);
        checks_by_log_file =
            put s.checks_by_log_file result.log_file_id (check_ids s result.log_file_id ++ id ∷ []);
      },
      ok tt,
    )

-- GetCheckResultByID
unfoldable pub get_check_result_by_id : Storage → Text → Result CheckResult
get_check_result_by_id s id = elim (get s.checks id) [ none ↦ err not_found | some r ↦ ok r ]

abbrev found_results : GoMap Text CheckResult → List Text → List CheckResult
found_results checks [] = []
found_results checks (id ∷ ids) =
    let rest = found_results checks ids in elim (get checks id) [ none ↦ rest | some r ↦ r ∷ rest ]

abbrev checked_before : CheckResult → CheckResult → Bool
checked_before a b = ltb a.checked_at b.checked_at

-- listCheckResultsLocked
unfoldable pub list_check_results : Storage → Text → List CheckResult
list_check_results s id = sort_by checked_before (found_results s.checks (check_ids s id))

-- GetLatestCheckResult
unfoldable pub get_latest_check_result : Storage → Text → Result CheckResult
unfolding list_check_results
get_latest_check_result s id = last_of (list_check_results s id)
