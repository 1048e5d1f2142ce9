-- ===== src/ServerService/Dashboard/Counts.antt =====
-- The counters of Dashboard are the numbers of what they count.
use log_integrity.Prelude.{
  ◌+◌, ◌≡◌, refl, ap, Bool, List, [], ◌∷◌, take, length, arith, keep, nat_beq, sum_of, not, text_eq,
  In-All,
}
use log_integrity.Prelude.GoMap.{values}
use log_integrity.Prelude.Sort.{length-sort_by, length-keep-sort_by, sum_of-sort_by}
use log_integrity.Models.{Server, ServerStatus}
use log_integrity.Models.Problem.{SystemProblem, ProblemSeverity}
use log_integrity.Repository.{ok, ◌>>=◌}
use log_integrity.Memory.{Storage}
use log_integrity.Memory.Listings.Servers.{list_servers, name_less, server_status_rank}
use log_integrity.ServerService.Problems.{Formats, list_problems}
use log_integrity.ServerService.Problems.Exact.{list_problems-IsExact}
use log_integrity.ServerService.Dashboard.{
  Overview, Dashboard, count_servers, count_all_files, count_problems, dashboard, count_status,
  no_servers, no_files, no_problems,
}
use log_integrity.ServerService.Dashboard.Files.{
  files_of, count_all_files-AllCounted, count_all_files-FilesAdd,
}
use log_integrity.ServerService.Dashboard.Severities.{
  HasSeverity, of_severity, count_problems-Added, severities_add, raised-HasSeverity,
}

-- The servers of one status.
abbrev pub of_status : ServerStatus → Server → Bool
of_status st x = nat_beq (server_status_rank x.status) (server_status_rank st)

-- What the counters of an overview add up to after more servers.
record Counted (o r : Overview) (xs : List Server) : Type 0 where
  pub total : r.total ≡ o.total + length xs
  pub active : r.active ≡ o.active + length (keep (of_status ServerStatus.active) xs)
  pub degraded : r.degraded ≡ o.degraded + length (keep (of_status ServerStatus.degraded) xs)
  pub inactive : r.inactive ≡ o.inactive + length (keep (of_status ServerStatus.inactive) xs)
  pub error : r.error ≡ o.error + length (keep (of_status ServerStatus.error) xs)

count_servers-Counted : (o : Overview) (xs : List Server) → Counted o (count_servers o xs) xs
unfolding count_servers
count_servers-Counted o [] = record {
  total = omega arith;
  active = omega arith;
  degraded = omega arith;
  inactive = omega arith;
  error = omega arith;
}
count_servers-Counted o (x ∷ xs) =
    let c = count_servers-Counted (count_status o x.status) xs in
    record {
      total = ground (arith, c.total);
      active = ground (arith, c.active);
      degraded = ground (arith, c.degraded);
      inactive = ground (arith, c.inactive);
      error = ground (arith, c.error);
    }

-- The dashboard `d` counts the servers, overall and by status, its log files are active or inactive, its
-- problems are the given ones, each a warning, an error or critical, and the first ten of them
-- are its recent ones.
pub record IsCount (s : Storage) (servers : List Server) (ps : List SystemProblem) (d : Dashboard)
    : Type 0 where
  pub total : d.servers.total ≡ length servers
  pub active : d.servers.active ≡ length (keep (of_status ServerStatus.active) servers)
  pub degraded : d.servers.degraded ≡ length (keep (of_status ServerStatus.degraded) servers)
  pub inactive : d.servers.inactive ≡ length (keep (of_status ServerStatus.inactive) servers)
  pub error : d.servers.error ≡ length (keep (of_status ServerStatus.error) servers)
  pub active_files : d.log_files.active ≡ sum_of (files_of s (λ f. f.is_active)) servers
  pub inactive_files : d.log_files.inactive ≡ sum_of (files_of s (λ f. not f.is_active)) servers
  pub files : d.log_files.total ≡ d.log_files.active + d.log_files.inactive
  pub warnings : d.problems.warning ≡ length (keep (of_severity ProblemSeverity.warning) ps)
  pub errors : d.problems.error ≡ length (keep (of_severity ProblemSeverity.error) ps)
  pub criticals : d.problems.critical ≡ length (keep (of_severity ProblemSeverity.critical) ps)
  pub problems : d.problems.total ≡ length ps
  pub severities : d.problems.total ≡ d.problems.warning + d.problems.error + d.problems.critical
  pub recent : d.recent_problems ≡ take 10 ps

-- Dashboard always returns one, in which the servers are counted overall and by status, the
-- stored log files of each stored server as active or as inactive, each file by its own flag, and
-- the problems of ListProblems by severity; every problem is a warning, an error or critical,
-- every counted file active or inactive, and the first ten problems are the recent ones.
pub dashboard-IsCount :
    (formats : Formats) (s : Storage)
    → (d : Dashboard) × (ps : List SystemProblem) × (dashboard formats s ≡ ok d)
      × (list_problems formats s ≡ ok ps)
      × IsCount s (values s.servers) ps d
unfolding dashboard list_servers
dashboard-IsCount formats s =
    let (ps, e, ordered, exact) = list_problems-IsExact formats s in
    let c = count_servers-Counted no_servers (list_servers s) in
    let a = count_problems-Added no_problems ps in
    let f = count_all_files-AllCounted s no_files (list_servers s) in
    let sums = severities_add ps (
      In-All HasSeverity ps
        λ p i. let (x, j, o) = (exact p).0 i in raised-HasSeverity formats s x p o) in
    (
      _,
      ps,
      ap
          (λ r. r >>= λ qs. ok (record {
            servers = count_servers no_servers (list_servers s);
            log_files = count_all_files s no_files (list_servers s);
            problems = count_problems no_problems qs;
            recent_problems = take 10 qs;
          }))
          e,
      e,
      record {
        total = omega (arith, c.total, length-sort_by name_less (values s.servers));
        active = omega (
          arith,
          c.active,
          length-keep-sort_by name_less (of_status ServerStatus.active) (values s.servers),
        );
        degraded = omega (
          arith,
          c.degraded,
          length-keep-sort_by name_less (of_status ServerStatus.degraded) (values s.servers),
        );
        inactive = omega (
          arith,
          c.inactive,
          length-keep-sort_by name_less (of_status ServerStatus.inactive) (values s.servers),
        );
        error = omega (
          arith,
          c.error,
          length-keep-sort_by name_less (of_status ServerStatus.error) (values s.servers),
        );
        active_files = omega (
          arith,
          f.active,
          sum_of-sort_by name_less (files_of s (λ f. f.is_active)) (values s.servers),
        );
        inactive_files = omega (
          arith,
          f.inactive,
          sum_of-sort_by name_less (files_of s (λ f. not f.is_active)) (values s.servers),
        );
        warnings = omega (arith, a.warning);
        errors = omega (arith, a.error);
        criticals = omega (arith, a.critical);
        files = count_all_files-FilesAdd s no_files (list_servers s) refl;
        problems = omega (arith, a.total);
        severities = omega (arith, a.total, a.warning, a.error, a.critical, sums);
        recent = refl;
      },
    )
