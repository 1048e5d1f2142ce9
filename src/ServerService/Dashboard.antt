-- ===== src/ServerService/Dashboard.antt =====
-- internal/service/server/service.go: Dashboard.
pub mod Files
pub mod Severities
pub mod Counts
use log_integrity.Prelude.{
  ℕ, suc, ◌+◌, ◌≤◌, ◌≡◌, refl, ap, ◌∙◌, Bool, true, false, List, [], ◌∷◌, take, length, arith, keep,
  Option, if◌then◌else◌,
}
use log_integrity.Models.{Server, ServerStatus, LogFile}
use log_integrity.Models.Problem.{SystemProblem, ProblemSeverity}
use log_integrity.Repository.{Result, ok, err, ◌>>=◌}
use log_integrity.Memory.{Storage}
use log_integrity.Memory.Listings.Servers.{list_servers}
use log_integrity.Memory.Listings.Files.{list_log_files_by_server}
use log_integrity.ServerService.Problems.{Formats, list_problems}

pub record Overview : Type 0 where
  pub total : ℕ
  pub active : ℕ
  pub degraded : ℕ
  pub inactive : ℕ
  pub error : ℕ

pub record LogFileOverview : Type 0 where
  pub total : ℕ
  pub active : ℕ
  pub inactive : ℕ

pub record ProblemOverview : Type 0 where
  pub total : ℕ
  pub warning : ℕ
  pub error : ℕ
  pub critical : ℕ

pub record Dashboard : Type 0 where
  pub servers : Overview
  pub log_files : LogFileOverview
  pub problems : ProblemOverview
  pub recent_problems : List SystemProblem

-- The counters after one server.
abbrev pub count_status : Overview → ServerStatus → Overview
count_status o ServerStatus.unset = record o { total = suc o.total }
count_status o ServerStatus.active = record o { total = suc o.total; active = suc o.active }
count_status o ServerStatus.degraded = record o { total = suc o.total; degraded = suc o.degraded }
count_status o ServerStatus.inactive = record o { total = suc o.total; inactive = suc o.inactive }
count_status o ServerStatus.error = record o { total = suc o.total; error = suc o.error }

abbrev pub count_file : LogFileOverview → LogFile → LogFileOverview
count_file o file =
    if file.is_active
    then record o { total = suc o.total; active = suc o.active }
    else record o { total = suc o.total; inactive = suc o.inactive }

abbrev pub count_severity : ProblemOverview → ProblemSeverity → ProblemOverview
count_severity o ProblemSeverity.unset = record o { total = suc o.total }
count_severity o ProblemSeverity.warning = record o { total = suc o.total; warning = suc o.warning }
count_severity o ProblemSeverity.error = record o { total = suc o.total; error = suc o.error }
count_severity o ProblemSeverity.critical = record o {
  total = suc o.total;
  critical = suc o.critical;
}

unfoldable pub count_servers : Overview → List Server → Overview
count_servers o [] = o
count_servers o (server ∷ servers) = count_servers (count_status o server.status) servers

unfoldable pub count_files : LogFileOverview → List LogFile → LogFileOverview
count_files o [] = o
count_files o (file ∷ files) = count_files (count_file o file) files

-- The inner loop for each server.
unfoldable pub count_all_files : Storage → LogFileOverview → List Server → LogFileOverview
unfolding count_files
count_all_files s o [] = o
count_all_files s o (server ∷ servers) =
    count_all_files s (count_files o (list_log_files_by_server s server.id)) servers

unfoldable pub count_problems : ProblemOverview → List SystemProblem → ProblemOverview
count_problems o [] = o
count_problems o (p ∷ ps) = count_problems (count_severity o p.severity) ps

abbrev pub no_servers : Overview
no_servers = record { total = 0; active = 0; degraded = 0; inactive = 0; error = 0 }

abbrev pub no_files : LogFileOverview
no_files = record { total = 0; active = 0; inactive = 0 }

abbrev pub no_problems : ProblemOverview
no_problems = record { total = 0; warning = 0; error = 0; critical = 0 }

-- Dashboard
unfoldable pub dashboard : Formats → Storage → Result Dashboard
unfolding count_servers count_all_files count_problems list_servers list_problems
dashboard formats s = do
  problems ← list_problems formats s
  ok (record {
    servers = count_servers no_servers (list_servers s);
    log_files = count_all_files s no_files (list_servers s);
    problems = count_problems no_problems problems;
    recent_problems = take 10 problems;
  })
