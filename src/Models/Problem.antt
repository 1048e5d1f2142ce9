-- ===== src/Models/Problem.antt =====
-- models/problem.go: the problems that an operator sees.
use log_integrity.Prelude.{Text, [], codes}
use log_integrity.Models.{CheckStatus, Time}

pub data ProblemSeverity : Type 0 where
  unset warning error critical : ProblemSeverity

pub data ProblemType : Type 0 where
  unset server_degraded server_unreachable server_backoff : ProblemType
  integrity_tampered integrity_check_error : ProblemType

pub record SystemProblem : Type 0 where
  pub severity : ProblemSeverity
  pub problem_type : ProblemType
  pub server_id : Text
  pub server_name : Text
  pub log_file_id : Text
  pub log_path : Text
  pub message : Text
  pub detected_at : Time

-- SeverityForCheckStatus
abbrev pub severity_for_check_status : CheckStatus → ProblemSeverity
severity_for_check_status CheckStatus.ok = ProblemSeverity.unset
severity_for_check_status CheckStatus.tampered = ProblemSeverity.critical
severity_for_check_status CheckStatus.error = ProblemSeverity.error

-- ProblemTypeForCheckStatus
abbrev pub problem_type_for_check_status : CheckStatus → ProblemType
problem_type_for_check_status CheckStatus.ok = ProblemType.unset
problem_type_for_check_status CheckStatus.tampered = ProblemType.integrity_tampered
problem_type_for_check_status CheckStatus.error = ProblemType.integrity_check_error

abbrev pub severity_name : ProblemSeverity → Text
severity_name ProblemSeverity.unset = []
severity_name ProblemSeverity.warning = codes "warning"
severity_name ProblemSeverity.error = codes "error"
severity_name ProblemSeverity.critical = codes "critical"

abbrev pub problem_type_name : ProblemType → Text
problem_type_name ProblemType.unset = []
problem_type_name ProblemType.server_degraded = codes "server_degraded"
problem_type_name ProblemType.server_unreachable = codes "server_unreachable"
problem_type_name ProblemType.server_backoff = codes "server_backoff"
problem_type_name ProblemType.integrity_tampered = codes "integrity_tampered"
problem_type_name ProblemType.integrity_check_error = codes "integrity_check_error"
