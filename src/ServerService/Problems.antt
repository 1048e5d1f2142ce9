-- ===== src/ServerService/Problems.antt =====
-- internal/service/server/service.go: ListProblems and ListProblemsFiltered. The format of a time and the
-- quotation of a path are Go's fmt and time packages: the record Formats.
pub mod Exact
pub mod Paging
use log_integrity.Prelude.{
  ℕ, ◌-◌, Bool, true, false, not, ◌||◌, ◌&&◌, Option, none, some, List, [], ◌∷◌, ◌++◌, Text, ◌==◌,
  text_eq, is_empty, nat_beq, ltb, codes, any, keep, length, take, drop, if◌then◌else◌,
}
use log_integrity.Prelude.Sort.{sort_by}
use log_integrity.Prelude.Order.{ltb_text}
use log_integrity.Prelude.Decimal.{itoa}
use log_integrity.Prelude.Strings.{trim_space, to_lower, has_substring, equal_fold}
use log_integrity.Prelude.Int.{ℤ, pos, pos_part, add64, ltb_ℤ, leb_ℤ}
use log_integrity.Models.{Server, ServerStatus, LogFile, CheckResult, CheckStatus, Time}
use log_integrity.Models.Problem.{
  SystemProblem, ProblemSeverity, ProblemType, severity_for_check_status,
  problem_type_for_check_status, severity_name, problem_type_name,
}
use log_integrity.Repository.{Error, not_found, conflict, failed, Result, ok, err, ◌>>=◌}
use log_integrity.Repository.Filters.{Page, ListOptions}
use log_integrity.Memory.{Storage}
use log_integrity.Memory.Checks.{get_latest_check_result}
use log_integrity.Memory.Listings.Servers.{list_servers}
use log_integrity.Memory.Listings.Files.{list_log_files_by_server}

-- `t.UTC().Format(time.RFC3339)` and the verb %q.
pub record Formats : Type 0 where
  pub rfc3339 : Time → Text
  pub quoted : Text → Text

-- severityRank
abbrev pub severity_rank : ProblemSeverity → ℕ
severity_rank ProblemSeverity.unset = 0
severity_rank ProblemSeverity.warning = 1
severity_rank ProblemSeverity.error = 2
severity_rank ProblemSeverity.critical = 3

-- problemDetectedAt
abbrev pub problem_detected_at : Server → Time
problem_detected_at server =
    if not (nat_beq server.updated_at 0)
    then server.updated_at
    else elim server.last_seen_at [ none ↦ server.created_at | some t ↦ t ]

-- serverProblemMessage
unfoldable pub server_problem_message : Server → Text → Text
unfolding trim_space
server_problem_message server fallback =
    if not (is_empty (trim_space server.last_error)) then server.last_error else fallback

abbrev server_problem : Server → ProblemSeverity → ProblemType → Text → SystemProblem
server_problem server severity problem_type message = record {
  severity = severity;
  problem_type = problem_type;
  server_id = server.id;
  server_name = server.name;
  log_file_id = [];
  log_path = [];
  message = message;
  detected_at = problem_detected_at server;
}

-- The switch of serverHealthProblems.
abbrev pub status_problems : Server → ServerStatus → List SystemProblem
status_problems server ServerStatus.unset = []
status_problems server ServerStatus.active = []
status_problems server ServerStatus.inactive = []
status_problems server ServerStatus.error =
    server_problem server ProblemSeverity.error ProblemType.server_unreachable
      (server_problem_message server (codes "server is unavailable"))
    ∷ []
status_problems server ServerStatus.degraded =
    server_problem server ProblemSeverity.warning ProblemType.server_degraded
      (server_problem_message server (codes "server is reachable but partially unhealthy"))
    ∷ []

-- The `less` of the sort in ListProblems: the most severe first, then the latest.
abbrev pub more_urgent : SystemProblem → SystemProblem → Bool
more_urgent a b =
    if nat_beq (severity_rank a.severity) (severity_rank b.severity)
    then ltb b.detected_at a.detected_at
    else ltb (severity_rank b.severity) (severity_rank a.severity)

pub record ProblemListFilter : Type 0 where
  pub options : ListOptions
  pub severity : Text
  pub problem_type : Text
  pub server_id : Text

-- problemMatchesQuery
unfoldable pub problem_matches_query : SystemProblem → Text → Bool
unfolding to_lower trim_space has_substring
problem_matches_query p query =
    let wanted = to_lower (trim_space query) in
    is_empty wanted
    || any (λ v. has_substring (to_lower v) wanted)
        (severity_name p.severity
          ∷ problem_type_name p.problem_type
          ∷ p.server_id
          ∷ p.server_name
          ∷ p.log_file_id
          ∷ p.log_path
          ∷ p.message
          ∷ [])

abbrev accepts : Text → Text → Bool
accepts wanted actual = is_empty wanted || actual == wanted

-- The conditions of the loop of ListProblemsFiltered.
unfoldable pub problem_matches : ProblemListFilter → SystemProblem → Bool
unfolding problem_matches_query
problem_matches filter p =
    accepts filter.severity (severity_name p.severity)
    && accepts filter.problem_type (problem_type_name p.problem_type)
    && accepts filter.server_id p.server_id
    && problem_matches_query p filter.options.q

abbrev server_label : SystemProblem → Text
server_label p = if is_empty p.server_name then p.server_id else p.server_name

-- compareProblems
unfoldable pub compare_problems : Text → SystemProblem → SystemProblem → Bool
unfolding ltb_text
compare_problems by a b =
    if by == codes "detected_at"
    then ltb a.detected_at b.detected_at
    else if by == codes "server"
    then ltb_text (server_label a) (server_label b)
    else if nat_beq (severity_rank a.severity) (severity_rank b.severity)
    then ltb a.detected_at b.detected_at
    else ltb (severity_rank a.severity) (severity_rank b.severity)

-- The `less` of the sort in ListProblemsFiltered.
unfoldable pub problem_less : ListOptions → SystemProblem → SystemProblem → Bool
unfolding compare_problems equal_fold
problem_less options a b =
    if equal_fold options.order (codes "asc")
    then compare_problems options.sort a b
    else compare_problems options.sort b a

-- `filtered[offset:end]`; `none` is the panic of a slice whose end is below its begin.
abbrev page_slice : List SystemProblem → ℤ → ℤ → Option (List SystemProblem)
page_slice items from to =
    if ltb_ℤ to from
    then none
    else some (take (pos_part to - pos_part from) (drop (pos_part from) items))

-- The end of ListProblemsFiltered: a page with defaults of its own.
unfoldable pub problem_page : List SystemProblem → ℤ → ℤ → Option (Page SystemProblem)
problem_page items given_offset given_limit =
    let offset = if ltb_ℤ given_offset (pos 0) then pos 0 else given_offset in
    let limit = if leb_ℤ given_limit (pos 0) then pos 50 else given_limit in
    let size = pos (length items) in
    let end = if ltb_ℤ (add64 offset limit) size then add64 offset limit else size in
    if leb_ℤ size offset
    then some (record { items = []; total = length items; offset = offset; limit = limit })
    else elim (page_slice items offset end) [
      | none ↦ none
      | some shown ↦
          some (record { items = shown; total = length items; offset = offset; limit = limit })
    ]

module _ (formats : Formats) where
  -- The test of serverHealthProblems for a backoff.
  abbrev pub backoff_problems : Server → Option Time → List SystemProblem
  backoff_problems server none = []
  backoff_problems server (some until) =
      server_problem server ProblemSeverity.warning ProblemType.server_backoff
        (codes "server is temporarily paused until " ++ formats.rfc3339 until)
      ∷ []

  -- serverHealthProblems
  unfoldable pub server_health_problems : Server → List SystemProblem
  unfolding server_problem_message
  server_health_problems server =
      status_problems server server.status ++ backoff_problems server server.backoff_until

  -- checkProblemMessage, for a result that is not ok.
  unfoldable pub check_problem_message : CheckStatus → CheckResult → Text → Text
  unfolding itoa
  check_problem_message CheckStatus.ok result path = []
  check_problem_message CheckStatus.tampered result path =
      codes "integrity violation detected in "
      ++ formats.quoted path
      ++ codes ": "
      ++ itoa result.tampered_lines
      ++ codes " tampered lines"
  check_problem_message CheckStatus.error result path =
      if not (is_empty result.error_message)
      then result.error_message
      else codes "integrity check failed for " ++ formats.quoted path

  abbrev pub check_problem : Server → LogFile → CheckResult → SystemProblem
  check_problem server file result = record {
    severity = severity_for_check_status result.status;
    problem_type = problem_type_for_check_status result.status;
    server_id = server.id;
    server_name = server.name;
    log_file_id = file.id;
    log_path = file.path;
    message = check_problem_message result.status result file.path;
    detected_at = result.checked_at;
  }

  -- The body of the loop over the log files, for a result that was found.
  abbrev pub result_problems : Server → LogFile → CheckResult → List SystemProblem
  result_problems server file result =
      if is_empty (problem_type_name (problem_type_for_check_status result.status))
        || is_empty (severity_name (severity_for_check_status result.status))
      then []
      else check_problem server file result ∷ []

  -- The body of the loop over the log files.
  unfoldable pub file_problems : Storage → Server → LogFile → Result (List SystemProblem)
  unfolding get_latest_check_result check_problem_message
  file_problems s server file =
      if not file.is_active then ok [] else elim (get_latest_check_result s file.id) [
        | ok result ↦ ok (result_problems server file result)
        | err Error.not_found ↦ ok []
        | err Error.conflict ↦ err conflict
        | err (Error.failed t) ↦ err (failed t)
      ]

  unfoldable pub files_problems : Storage → Server → List LogFile → Result (List SystemProblem)
  unfolding file_problems
  files_problems s server [] = ok []
  files_problems s server (file ∷ files) = do
    first ← file_problems s server file
    rest ← files_problems s server files
    ok (first ++ rest)

  -- The loop of ListProblems over the servers.
  unfoldable pub servers_problems : Storage → List Server → Result (List SystemProblem)
  unfolding files_problems server_health_problems
  servers_problems s [] = ok []
  servers_problems s (server ∷ servers) = do
    found ← files_problems s server (list_log_files_by_server s server.id)
    rest ← servers_problems s servers
    ok (server_health_problems server ++ found ++ rest)

  -- ListProblems
  unfoldable pub list_problems : Storage → Result (List SystemProblem)
  unfolding servers_problems
  list_problems s = do
    problems ← servers_problems s (list_servers s)
    ok (sort_by more_urgent problems)

  -- ListProblemsFiltered; `none` is the panic of its slice.
  unfoldable pub list_problems_filtered :
      Storage → ProblemListFilter → Result (Option (Page SystemProblem))
  unfolding list_problems problem_matches problem_less problem_page
  list_problems_filtered s filter = do
    problems ← list_problems s
    ok (
        problem_page
          (sort_by (problem_less filter.options) (keep (problem_matches filter) problems))
          filter.options.offset filter.options.limit)
