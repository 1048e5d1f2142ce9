-- ===== src/ServerService/Dashboard/Files.antt =====
-- The counters of log files of Dashboard.
use log_integrity.Prelude.{
  ◌+◌, ◌≡◌, ap, ◌∙◌, Bool, List, [], ◌∷◌, length, arith, keep, ℕ, sum_of, keep-keep, not, ◌&&◌,
  ◌==◌, text_eq,
}
use log_integrity.Prelude.GoMap.{values}
use log_integrity.Prelude.Sort.{length-keep-sort_by}
use log_integrity.Models.{Server, LogFile}
use log_integrity.Memory.{Storage}
use log_integrity.Memory.Listings.Files.{list_log_files_by_server, path_less}
use log_integrity.ServerService.Dashboard.{
  LogFileOverview, count_files, count_all_files, count_file,
}

-- What the counters of log files add up to after more files.
record FilesCounted (o r : LogFileOverview) (files : List LogFile) : Type 0 where
  pub active : r.active ≡ o.active + length (keep (λ f. f.is_active) files)
  pub inactive : r.inactive ≡ o.inactive + length (keep (λ f. not f.is_active) files)
  pub total : r.total ≡ o.total + length files

count_files-FilesCounted :
    (o : LogFileOverview) (files : List LogFile) → FilesCounted o (count_files o files) files
unfolding count_files
count_files-FilesCounted o [] = record {
  active = omega arith;
  inactive = omega arith;
  total = omega arith;
}
count_files-FilesCounted o (file ∷ files) =
    let c = count_files-FilesCounted (count_file o file) files in
    record {
      active = ground (arith, c.active);
      inactive = ground (arith, c.inactive);
      total = ground (arith, c.total);
    }

-- The number of the stored log files of a server that pass a test.
abbrev pub files_of : Storage → (LogFile → Bool) → Server → ℕ
files_of s p server = length (keep (λ f. (f.server_id == server.id) && p f) (values s.log_files))

files_of-listed :
    (s : Storage) (p : LogFile → Bool) (server : Server)
    → length (keep p (list_log_files_by_server s server.id)) ≡ files_of s p server
unfolding list_log_files_by_server
files_of-listed s p server =
    length-keep-sort_by path_less p (keep (λ f. f.server_id == server.id) (values s.log_files))
    ∙ ap length (keep-keep (λ (f : LogFile). f.server_id == server.id) p (values s.log_files))

pub record AllCounted (s : Storage) (o r : LogFileOverview) (servers : List Server) : Type 0 where
  pub active : r.active ≡ o.active + sum_of (files_of s (λ f. f.is_active)) servers
  pub inactive : r.inactive ≡ o.inactive + sum_of (files_of s (λ f. not f.is_active)) servers

pub count_all_files-AllCounted :
    (s : Storage) (o : LogFileOverview) (servers : List Server)
    → AllCounted s o (count_all_files s o servers) servers
unfolding count_all_files
count_all_files-AllCounted s o [] = record { active = omega arith; inactive = omega arith }
count_all_files-AllCounted s o (server ∷ servers) =
    let files = list_log_files_by_server s server.id in
    let c = count_files-FilesCounted o files in
    let rest = count_all_files-AllCounted s (count_files o files) servers in
    record {
      active = omega (arith, rest.active, c.active, files_of-listed s (λ f. f.is_active) server);
      inactive =
          omega (arith, rest.inactive, c.inactive, files_of-listed s (λ f. not f.is_active) server);
    }

abbrev pub FilesAdd : LogFileOverview → Type 0
FilesAdd o = o.total ≡ o.active + o.inactive

count_files-FilesAdd :
    (o : LogFileOverview) (files : List LogFile) → FilesAdd o → FilesAdd (count_files o files)
unfolding count_files
count_files-FilesAdd o [] h = h
count_files-FilesAdd o (file ∷ files) h =
    count_files-FilesAdd (count_file o file) files (ground (arith, h))

pub count_all_files-FilesAdd :
    (s : Storage) (o : LogFileOverview) (servers : List Server)
    → FilesAdd o
    → FilesAdd (count_all_files s o servers)
unfolding count_all_files
count_all_files-FilesAdd s o [] h = h
count_all_files-FilesAdd s o (server ∷ servers) h =
    count_all_files-FilesAdd s (count_files o (list_log_files_by_server s server.id)) servers
      (count_files-FilesAdd o (list_log_files_by_server s server.id) h)
