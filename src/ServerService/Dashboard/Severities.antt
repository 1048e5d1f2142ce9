-- ===== src/ServerService/Dashboard/Severities.antt =====
-- The counters of problems of Dashboard.
use log_integrity.Prelude.{
  suc, ◌+◌, ◌≡◌, ◌≢◌, refl, sym, ap, ◌∙◌, inl, inr, Bool, List, [], ◌∷◌, length, arith, keep,
  nat_beq, ℕ, text_eq, if◌then◌else◌, All, All-In, All-append, Option, none, some,
}
use log_integrity.Models.{Server, ServerStatus, CheckStatus, Time}
use log_integrity.Models.Problem.{SystemProblem, ProblemSeverity, severity_for_check_status}
use log_integrity.Memory.{Storage}
use log_integrity.ServerService.Problems.{
  Formats, severity_rank, server_health_problems, status_problems, backoff_problems,
}
use log_integrity.ServerService.Problems.Exact.{OfServer}
use log_integrity.ServerService.Dashboard.{ProblemOverview, count_problems, count_severity}

abbrev pub HasSeverity : SystemProblem → Type 0
HasSeverity p = p.severity ≢ ProblemSeverity.unset

-- The problems of one severity.
abbrev pub of_severity : ProblemSeverity → SystemProblem → Bool
of_severity v p = nat_beq (severity_rank p.severity) (severity_rank v)

-- What the counters of problems add up to after more problems.
pub record Added (o r : ProblemOverview) (ps : List SystemProblem) : Type 0 where
  pub total : r.total ≡ o.total + length ps
  pub warning : r.warning ≡ o.warning + length (keep (of_severity ProblemSeverity.warning) ps)
  pub error : r.error ≡ o.error + length (keep (of_severity ProblemSeverity.error) ps)
  pub critical : r.critical ≡ o.critical + length (keep (of_severity ProblemSeverity.critical) ps)

pub count_problems-Added :
    (o : ProblemOverview) (ps : List SystemProblem) → Added o (count_problems o ps) ps
unfolding count_problems
count_problems-Added o [] = record {
  total = omega arith;
  warning = omega arith;
  error = omega arith;
  critical = omega arith;
}
count_problems-Added o (p ∷ ps) =
    let c = count_problems-Added (count_severity o p.severity) ps in
    record {
      total = ground (arith, c.total);
      warning = ground (arith, c.warning);
      error = ground (arith, c.error);
      critical = ground (arith, c.critical);
    }

-- Problems that each have a severity are the warnings, the errors and the critical ones.
pub severities_add :
    (ps : List SystemProblem)
    → All HasSeverity ps
    → length (keep (of_severity ProblemSeverity.warning) ps)
        + length (keep (of_severity ProblemSeverity.error) ps)
        + length (keep (of_severity ProblemSeverity.critical) ps)
      ≡ length ps
severities_add [] h = refl
severities_add (p ∷ ps) h = pick p.severity h.0 (severities_add ps h.1)
  where
    more : ProblemSeverity → ProblemSeverity → List SystemProblem → ℕ
    more v w qs = length (
        if nat_beq (severity_rank v) (severity_rank w)
        then p ∷ keep (of_severity w) qs
        else keep (of_severity w) qs)

    pick :
        (v : ProblemSeverity)
        → v ≢ ProblemSeverity.unset
        → length (keep (of_severity ProblemSeverity.warning) ps)
            + length (keep (of_severity ProblemSeverity.error) ps)
            + length (keep (of_severity ProblemSeverity.critical) ps)
          ≡ length ps
        → more v ProblemSeverity.warning ps
            + more v ProblemSeverity.error ps
            + more v ProblemSeverity.critical ps
          ≡ suc (length ps)
    pick ProblemSeverity.unset n h = absurd (n refl)
    pick ProblemSeverity.warning n h = omega (arith, h)
    pick ProblemSeverity.error n h = omega (arith, h)
    pick ProblemSeverity.critical n h = omega (arith, h)

health-HasSeverity :
    (formats : Formats) (server : Server) → All HasSeverity (server_health_problems formats server)
unfolding server_health_problems
health-HasSeverity formats server =
    All-append HasSeverity _ _ (status server.status) (pause server.backoff_until)
  where
    status : (st : ServerStatus) → All HasSeverity (status_problems server st)
    status ServerStatus.unset = tt
    status ServerStatus.active = tt
    status ServerStatus.inactive = tt
    status ServerStatus.error = (λ e. cc, tt)
    status ServerStatus.degraded = (λ e. cc, tt)

    pause : (o : Option Time) → All HasSeverity (backoff_problems formats server o)
    pause none = tt
    pause (some t) = (λ e. cc, tt)

pub raised-HasSeverity :
    (formats : Formats) (s : Storage) (server : Server) (p : SystemProblem)
    → OfServer formats s server p
    → HasSeverity p
raised-HasSeverity formats s server p (inl i) =
    All-In HasSeverity p (server_health_problems formats server) (health-HasSeverity formats server)
      i
raised-HasSeverity formats s server p (inr (file, i, (a, result, g, n, e))) =
    λ q. go result.status n (sym (ap (λ (z : SystemProblem). z.severity) e) ∙ q)
  where
    go :
        (st : CheckStatus)
        → st ≢ CheckStatus.ok
        → severity_for_check_status st ≡ ProblemSeverity.unset
        → ⊥
    go CheckStatus.ok m r = m refl
    go CheckStatus.tampered m r = cc
    go CheckStatus.error m r = cc
