-- ===== src/Models/Names.antt =====
-- The string values of the enumerations of models/*.go.
use log_integrity.Prelude.{Text, [], codes}
use log_integrity.Models.{CheckStatus, ServerStatus, ManagedBy, OsType, AuthType, LogType}

abbrev pub check_status_name : CheckStatus → Text
check_status_name CheckStatus.ok = codes "ok"
check_status_name CheckStatus.tampered = codes "tampered"
check_status_name CheckStatus.error = codes "error"

abbrev pub server_status_name : ServerStatus → Text
server_status_name ServerStatus.unset = []
server_status_name ServerStatus.active = codes "active"
server_status_name ServerStatus.degraded = codes "degraded"
server_status_name ServerStatus.inactive = codes "inactive"
server_status_name ServerStatus.error = codes "error"

abbrev pub managed_by_name : ManagedBy → Text
managed_by_name ManagedBy.unset = []
managed_by_name ManagedBy.config = codes "config"
managed_by_name ManagedBy.api = codes "api"

abbrev pub os_type_name : OsType → Text
os_type_name OsType.unset = []
os_type_name OsType.linux = codes "linux"
os_type_name OsType.windows = codes "windows"
os_type_name OsType.macos = codes "macos"

abbrev pub auth_type_name : AuthType → Text
auth_type_name AuthType.unset = []
auth_type_name AuthType.password = codes "password"
auth_type_name AuthType.key = codes "key"

abbrev pub log_type_name : LogType → Text
log_type_name LogType.syslog = codes "syslog"
log_type_name LogType.auth = codes "auth"
log_type_name LogType.nginx = codes "nginx"
log_type_name LogType.apache = codes "apache"
log_type_name LogType.eventlog = codes "eventlog"
log_type_name LogType.kernel = codes "kernel"
log_type_name LogType.app = codes "app"
log_type_name LogType.unknown = codes "unknown"
