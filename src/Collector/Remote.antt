-- ===== src/Collector/Remote.antt =====
-- internal/service/collector/service.go: what the collector runs on a server, and what it reads from the
-- output. The SSH client is a parameter: whether it connects, and what a command prints. The text
-- that wraps an error is left out, as errors.Is and errors.As look through it.
use log_integrity.Prelude.{
  Bool, ◌||◌, none, some, List, [], ◌∷◌, ◌++◌, Text, ◌==◌, text_eq, nat_beq, codes, drop, length,
  if◌then◌else◌,
}
use log_integrity.Prelude.GoMap.{GoMap, put}
use log_integrity.Prelude.Decimal.{format_int}
use log_integrity.Prelude.Strings.{
  trim_space, unix_lines, split_lines, cut, has_prefix, has_substring, to_lower, parse_clamped,
}
use log_integrity.Prelude.Int.{ℤ, pos, ltb_ℤ, leb_ℤ}
use log_integrity.Models.{Server, LogFile, FileIdentity, OsType}
use log_integrity.Repository.{Result, ok, ◌>>=◌}
use log_integrity.Collector.Source.{Line, parse_line_output}

-- ssh.Client, as a client that NewClient made.
pub record Client : Type 0 where
  pub connect : Server → Result (Unit {0})
  pub execute : Text → Result Text

-- `strings.ReplaceAll(value, "'", with)`
replace_quotes : Text → Text → Text
replace_quotes with [] = []
replace_quotes with (c ∷ s) =
    let rest = replace_quotes with s in if nat_beq c 39 then with ++ rest else c ∷ rest

-- escapeSingleQuotes
unfoldable pub escape_single_quotes : Text → Text
unfolding replace_quotes
escape_single_quotes = replace_quotes (codes "'\\''")

-- escapePowerShellSingleQuotes
unfoldable pub escape_power_shell_single_quotes : Text → Text
unfolding replace_quotes
escape_power_shell_single_quotes = replace_quotes (codes "''")

-- looksLikeWindowsPath
unfoldable pub looks_like_windows_path : Text → Bool
unfolding has_substring
looks_like_windows_path path = has_substring path (codes ":\\") || has_substring path (codes "\\")

abbrev event_log_prefix : Text
event_log_prefix = codes "eventlog://"

unfoldable pub is_event_log : Text → Bool
unfolding has_prefix to_lower
is_event_log path = has_prefix (to_lower path) event_log_prefix

-- `path[len("eventlog://"):]`
abbrev event_log_name : Text → Text
event_log_name path = drop (length event_log_prefix) path

abbrev event_loop : Text
event_loop = codes "foreach ($event in $events) { '{0}`t{1}' -f $event.RecordId, $event.Message }\""

-- buildEventLogReadCommand
unfoldable pub build_event_log_read_command : Text → ℤ → Text
unfolding escape_power_shell_single_quotes format_int
build_event_log_read_command log_name after_line =
    codes "powershell -NoProfile -Command \"$events = Get-WinEvent -LogName '"
    ++ escape_power_shell_single_quotes log_name
    ++ (if leb_ℤ after_line (pos 0)
        then []
        else codes "' -FilterXPath '*[System[(EventRecordID>"
          ++ format_int after_line
          ++ codes ")]]")
    ++ codes "' -Oldest -ErrorAction Stop; "
    ++ event_loop

-- The command for a Windows path.
abbrev windows_read_command : Text → ℤ → Text
windows_read_command path after_line =
    codes "powershell -NoProfile -Command \"$i=0; Get-Content -LiteralPath '"
    ++ escape_power_shell_single_quotes path
    ++ codes "' -ErrorAction Stop | ForEach-Object { $i++; if ($i -gt "
    ++ format_int after_line
    ++ codes ") { '{0}`t{1}' -f $i, $_ } }\""

-- The command for any other path.
abbrev shell_read_command : Text → ℤ → Text
shell_read_command path after_line =
    codes "sh -lc \"p='"
    ++ escape_single_quotes path
    ++ codes "'; start="
    ++ format_int after_line
    ++ codes
        "; if [ ! -f \\\"$p\\\" ]; then echo 'log file not found:' \\\"$p\\\" >&2; exit 1; fi; "
    ++ codes "awk -v start=\\\"$start\\\" 'NR > start { print NR \\\"\\\\t\\\" $0 }' \\\"$p\\\"\""

-- buildReadCommand
unfoldable pub build_read_command : LogFile → ℤ → Text
unfolding is_event_log build_event_log_read_command looks_like_windows_path
    escape_power_shell_single_quotes escape_single_quotes format_int
build_read_command file given =
    let after_line = if ltb_ℤ given (pos 0) then pos 0 else given in
    if is_event_log file.path
    then build_event_log_read_command (event_log_name file.path) after_line
    else if looks_like_windows_path file.path
    then windows_read_command file.path after_line
    else shell_read_command file.path after_line

-- buildIdentityCommand
unfoldable pub build_identity_command : OsType → Text → Text
unfolding escape_power_shell_single_quotes escape_single_quotes
build_identity_command OsType.windows path =
    codes "powershell -NoProfile -Command \"$p='"
    ++ escape_power_shell_single_quotes path
    ++ codes "'; $i=Get-Item -LiteralPath $p -ErrorAction Stop; 'file_id=' + $i.FullName; "
    ++ codes "'size_bytes=' + $i.Length; 'mod_time_unix=' + "
    ++ codes "([DateTimeOffset]$i.LastWriteTimeUtc).ToUnixTimeSeconds(); "
    ++ codes "'volume_id=' + $i.PSDrive.Name\""
build_identity_command OsType.macos path =
    codes "sh -lc \"stat -f 'device_id=%d\ninode=%i\nsize_bytes=%z\nmod_time_unix=%m' '"
    ++ escape_single_quotes path
    ++ codes "'\""
build_identity_command OsType.linux path =
    codes "sh -lc \"stat -c 'device_id=%d\ninode=%i\nsize_bytes=%s\nmod_time_unix=%Y' '"
    ++ escape_single_quotes path
    ++ codes "'\""
build_identity_command OsType.unset path =
    codes "sh -lc \"stat -c 'device_id=%d\ninode=%i\nsize_bytes=%s\nmod_time_unix=%Y' '"
    ++ escape_single_quotes path
    ++ codes "'\""

abbrev pub no_identity : FileIdentity
no_identity = record {
  device_id = [];
  inode = [];
  volume_id = [];
  file_id = [];
  event_log = [];
  size_bytes = pos 0;
  mod_time_unix = pos 0;
}

abbrev pub Inspected : Type 0
Inspected = FileIdentity × GoMap Text Text

-- The switch of parseIdentityOutput on a key.
unfoldable pub with_attribute : Inspected → Text → Text → Inspected
unfolding parse_clamped
with_attribute (identity, meta) key value =
    if key == codes "device_id"
    then (record identity { device_id = value }, meta)
    else if key == codes "inode"
    then (record identity { inode = value }, meta)
    else if key == codes "volume_id"
    then (record identity { volume_id = value }, meta)
    else if key == codes "file_id"
    then (record identity { file_id = value }, meta)
    else if key == codes "size_bytes"
    then (record identity { size_bytes = parse_clamped value }, meta)
    else if key == codes "mod_time_unix"
    then (record identity { mod_time_unix = parse_clamped value }, meta)
    else (identity, put meta key value)

-- The loop of parseIdentityOutput. A blank line has no `=`.
unfoldable pub identity_of_lines : Inspected → List Text → Inspected
unfolding with_attribute
identity_of_lines found [] = found
identity_of_lines found (raw ∷ raws) = elim (cut (trim_space raw) 61) [
  | none ↦ identity_of_lines found raws
  | some (key, value) ↦
      identity_of_lines (with_attribute found (trim_space key) (trim_space value)) raws
]

-- parseIdentityOutput
unfoldable pub parse_identity_output : Text → Inspected
unfolding identity_of_lines
parse_identity_output output = identity_of_lines (no_identity, []) (split_lines (unix_lines output))

module _ (client : Client) where
  -- InspectLogFileIdentity
  unfoldable pub inspect_log_file_identity : Server → LogFile → Result Inspected
  unfolding is_event_log build_identity_command parse_identity_output
  inspect_log_file_identity server file =
      if is_event_log file.path
      then ok (
        record no_identity { event_log = event_log_name file.path },
        (codes "source_type", codes "windows_event_log") ∷ [],
      )
      else client.execute (build_identity_command server.os_type file.path) >>= λ output.
          ok (parse_identity_output output)

  -- ReadLogLinesAfter
  unfoldable pub read_log_lines_after : LogFile → ℤ → Result (List Line)
  unfolding build_read_command
  read_log_lines_after file after_line =
      client.execute (build_read_command file after_line) >>= λ output.
      ok (parse_line_output output)

  -- ReadLogLines
  unfoldable pub read_log_lines : LogFile → Result (List Line)
  unfolding read_log_lines_after
  read_log_lines file = read_log_lines_after file (pos 0)
