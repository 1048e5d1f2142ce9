-- ===== src/Discovery.antt =====
-- internal/service/discovery: the classification of paths, the parsed output of a discovery, the detection
-- of the operating system, and the synchronisation with the storage.
pub mod Unique
pub mod Sync
pub mod Active
pub mod Pending
pub mod Missing
pub mod Exact
pub mod Others
use log_integrity.Prelude.{
  ℕ, Bool, true, false, ◌||◌, Option, none, some, List, [], ◌∷◌, Text, ◌==◌, text_eq, is_empty,
  nat_beq, any, contains, codes, if◌then◌else◌,
}
use mathlib.Core.List.{reverse}
use log_integrity.Prelude.GoMap.{GoMap, get, put}
use log_integrity.Prelude.Strings.{
  trim_space, unix_lines, split_lines, has_prefix, has_substring, to_lower,
}
use log_integrity.Models.{LogType, OsType, Server}
use log_integrity.Repository.{failed, Result, ok, err}
use log_integrity.Collector.Remote.{Client}

-- DiscoveredLog
pub record DiscoveredLog : Type 0 where
  pub path : Text
  pub log_type : LogType

-- `strings.ReplaceAll(s, "\\", "/")`
slashed : Text → Text
slashed [] = []
slashed (c ∷ s) = (if nat_beq c 92 then 47 else c) ∷ slashed s

-- `strings.HasSuffix(s, suffix)`
abbrev has_suffix : Text → Text → Bool
has_suffix s suffix = has_prefix (reverse s) (reverse suffix)

-- The rest of the text without the slashes in front.
strip_slashes : Text → Text
strip_slashes [] = []
strip_slashes (c ∷ s) = let rest = strip_slashes s in if nat_beq c 47 then rest else c ∷ s

up_to_slash : Text → Text
up_to_slash [] = []
up_to_slash (c ∷ s) = let rest = up_to_slash s in if nat_beq c 47 then [] else c ∷ rest

abbrev or_slash : Text → Text
or_slash [] = codes "/"
or_slash (c ∷ s) = c ∷ s

-- `path.Base(s)`
unfoldable pub base : Text → Text
unfolding strip_slashes up_to_slash
base [] = codes "."
base (c ∷ s) = or_slash (reverse (up_to_slash (strip_slashes (reverse (c ∷ s)))))

abbrev one_of : Text → List Text → Bool
one_of t names = any (λ n. t == n) names

-- The switch of classifyLogType.
abbrev type_of : Text → Text → LogType
type_of normalized name =
    if has_prefix normalized (codes "eventlog://") || has_suffix normalized (codes ".evtx")
    then LogType.eventlog
    else if has_substring normalized (codes "/nginx/")
    then LogType.nginx
    else if has_substring normalized (codes "/apache") || has_substring normalized (codes "/httpd/")
    then LogType.apache
    else if one_of name (codes "auth.log" ∷ codes "secure" ∷ [])
    then LogType.auth
    else if one_of name (codes "syslog" ∷ codes "messages" ∷ codes "system.log" ∷ [])
    then LogType.syslog
    else if one_of name (codes "kern.log" ∷ codes "kernel.log" ∷ codes "dmesg" ∷ [])
    then LogType.kernel
    else if has_suffix name (codes ".log")
    then LogType.app
    else LogType.unknown

-- classifyLogType
unfoldable pub classify_log_type : Text → LogType
unfolding slashed base to_lower has_prefix has_substring
classify_log_type log_path =
    type_of (to_lower (slashed log_path)) (base (to_lower (slashed log_path)))

-- The loop of parseDiscoveredOutput over the lines, with the paths that were seen.
unfoldable pub new_paths : List Text → List Text → List DiscoveredLog
unfolding trim_space classify_log_type
new_paths seen [] = []
new_paths seen (line ∷ lines) =
    let item = trim_space line in
    let kept = new_paths seen lines in
    let added = new_paths (item ∷ seen) lines in
    if is_empty item || contains seen item
    then kept
    else record { path = item; log_type = classify_log_type item } ∷ added

-- parseDiscoveredOutput; an empty output has one blank line.
unfoldable pub parse_discovered_output : Text → List DiscoveredLog
unfolding new_paths
parse_discovered_output output = new_paths [] (split_lines (unix_lines output))

abbrev mentions : Result Text → Text → Bool
mentions (ok output) word = has_substring (to_lower output) word
mentions (err x) word = false

abbrev trimmed_output : Result Text → Result Text
trimmed_output (ok output) = ok (trim_space output)
trimmed_output (err x) = err x

-- DetectOSType
unfoldable pub detect_os_type : Client → Result OsType
unfolding has_substring to_lower trim_space
detect_os_type client =
    let uname = trimmed_output (client.execute (codes "uname -s")) in
    if mentions uname (codes "linux")
    then ok OsType.linux
    else if mentions uname (codes "darwin")
    then ok OsType.macos
    else if mentions (client.execute (codes "powershell -NoProfile -Command \"$env:OS\""))
          (codes "windows")
        || mentions (client.execute (codes "cmd /c ver")) (codes "windows")
    then ok OsType.windows
    else err (failed (codes "discovery: could not detect remote operating system"))
