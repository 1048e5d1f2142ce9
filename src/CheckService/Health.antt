-- ===== src/CheckService/Health.antt =====
-- What a run of checks records of the health of its server.
use log_integrity.Prelude.{
  ℕ, suc, ◌+◌, ◌≡◌, refl, ap, ◌∙◌, Bool, true, false, ◌&&◌, some, List, [], ◌∷◌, Text, text_eq,
  nat_beq, length, if◌then◌else◌, any, keep, not, none, arith,
}
use log_integrity.Prelude.GoMap.{GoMap, get, put, values, get-put_self}
use log_integrity.Models.{Server, ServerStatus, LogFile, CheckStatus, Time}
use log_integrity.Hasher.{Crypto}
use log_integrity.Repository.{Result, ok}
use log_integrity.Memory.{Storage}
use log_integrity.Memory.Servers.{
  clashes, name_or_host_taken, record_server_success-stored, record_server_failure-stored,
}
use log_integrity.Memory.Answers.{memory_reads}
use log_integrity.Health.{Options}
use log_integrity.Health.Records.{
  record_success, record_failure, record_degraded, record_degraded-stored,
}
use log_integrity.Collector.Remote.{Client}
use log_integrity.Integrity.Check.{Checked, Stamp, check_log_file}
use log_integrity.Integrity.Check.Verdict.{check_log_file-SameEvidence}
use log_integrity.CheckService.{
  Summary, no_summary, RunResult, counted, run_result, run_files, record_summary, run_resolved,
  build_integrity_degraded_message,
}

-- A check failed if it returned an error, or a result with the status error.
abbrev pub has_failed : Checked → Bool
has_failed c = elim c.error [
  | some x ↦ true
  | none ↦ elim c.result [
    | none ↦ false
    | some r ↦ elim r.status [
      | CheckStatus.error ↦ true
      | CheckStatus.tampered ↦ false
      | CheckStatus.ok ↦ false
    ]
  ]
]

-- A check found tampered lines if it returned no error and a result with that status.
abbrev pub found_tampering : Checked → Bool
found_tampering c = elim c.error [
  | some x ↦ false
  | none ↦ elim c.result [
    | none ↦ false
    | some r ↦ elim r.status [
      | CheckStatus.error ↦ false
      | CheckStatus.tampered ↦ true
      | CheckStatus.ok ↦ false
    ]
  ]
]

abbrev pub not_failed : Checked → Bool
not_failed c = not (has_failed c)

-- The counters are the numbers of the checks that succeeded, failed and found tampered lines.
abbrev pub IsTally : Summary → List Checked → Type 0
IsTally m outs =
    (m.succeeded ≡ length (keep not_failed outs))
    × (m.failed ≡ length (keep has_failed outs))
    × (m.tampered ≡ length (keep found_tampering outs))

-- The counters after more checks.
abbrev Tallies : Summary → Summary → List Checked → Type 0
Tallies m r outs =
    (r.succeeded ≡ m.succeeded + length (keep not_failed outs))
    × (r.failed ≡ m.failed + length (keep has_failed outs))
    × (r.tampered ≡ m.tampered + length (keep found_tampering outs))

counted-Tallies :
    (m r : Summary) (c : Checked) (outs : List Checked)
    → Tallies (counted m c) r outs
    → Tallies m r (c ∷ outs)
unfolding counted
counted-Tallies m r c outs h = (ground (arith, h.0), ground (arith, h.1), ground (arith, h.2))

-- The status that the checks call for: all succeeded and found nothing, all failed, or neither.
abbrev pub health_of_checks : List Checked → ServerStatus
health_of_checks outs =
    if not (any has_failed outs) && not (any found_tampering outs)
    then ServerStatus.active
    else if not (any not_failed outs)
    then ServerStatus.error
    else ServerStatus.degraded

none_of :
    {A : Type 0} (p : A → Bool) (xs : List A) → nat_beq (length (keep p xs)) 0 ≡ not (any p xs)
none_of p [] = refl
none_of p (x ∷ xs) = ground (arith, none_of p xs)

-- The status that a summary calls for.
abbrev health_of : Summary → ServerStatus
health_of m =
    if nat_beq m.failed 0 && nat_beq m.tampered 0
    then ServerStatus.active
    else if nat_beq m.succeeded 0
    then ServerStatus.error
    else ServerStatus.degraded

health_of-checks :
    (m : Summary) (outs : List Checked) → IsTally m outs → health_of m ≡ health_of_checks outs
health_of-checks m outs (a, b, c) =
    rw (a, b, c, none_of has_failed outs, none_of found_tampering outs, none_of not_failed outs)
      refl

abbrev HasStatus : Text → Storage → ServerStatus → Type 0
HasStatus id t st = (x : Server) × (get t.servers id ≡ some x) × (x.status ≡ st)

put-HasStatus :
    (s : Storage) (id : Text) (x : Server) (st : ServerStatus) (r : Storage × Result (Unit {0}))
    → r ≡ (record s { servers = put s.servers id x }, ok tt)
    → x.status ≡ st
    → HasStatus id r.0 st
put-HasStatus s id x st r e q = (
  x,
  ap (λ (r : Storage × Result (Unit {0})). get r.0.servers id) e ∙ get-put_self s.servers id x,
  q,
)

record_summary-HasStatus :
    (options : Options) (s : Storage) (server : Server) (m : Summary) (total : ℕ)
    (seen_at now : Time)
    → get s.servers server.id ≡ some server
    → name_or_host_taken s server.name server.host server.id ≡ false
    → HasStatus server.id (record_summary options s server m total seen_at now) (health_of m)
unfolding record_summary record_success record_failure
record_summary-HasStatus options s server m total seen_at now h free =
    pick (nat_beq m.failed 0 && nat_beq m.tampered 0) (nat_beq m.succeeded 0)
  where
    pick :
        (a b : Bool)
        → HasStatus server.id
            (if a
              then (record_success s server.id seen_at now).0
              else if b
              then (record_failure options s server m.first_error seen_at now).0
              else (record_degraded options s server.id
                  (build_integrity_degraded_message m.failed m.tampered total)
                  seen_at
                  now).0)
            (if a
              then ServerStatus.active
              else if b
              then ServerStatus.error
              else ServerStatus.degraded)
    pick true b =
        let (x, e, q) = record_server_success-stored s server.id seen_at now server h in
        put-HasStatus s server.id x _ (record_success s server.id seen_at now) e q
    pick false true =
        put-HasStatus s server.id _ _ (record_failure options s server m.first_error seen_at now)
          (record_server_failure-stored s server.id _ _ now server h) refl
    pick false false =
        let (x, e, q) = record_degraded-stored options s server _ seen_at now h free in
        put-HasStatus s server.id x _ _ e q

module _ (crypto : Crypto) (key : Text) (quoted : Text → Text) where
  run_files-servers :
      (stamp : ℕ → Stamp) (client : Client) (server : Server) (s : Storage)
      (results : GoMap Text RunResult) (m : Summary) (files : List LogFile)
      → (run_files crypto key quoted stamp client server s results m files).0.servers ≡ s.servers
  unfolding run_files
  run_files-servers stamp client server s results m [] = refl
  run_files-servers stamp client server s results m (file ∷ files) =
      let out = check_log_file crypto key quoted (memory_reads s) (stamp 0) client server s file in
      run_files-servers (λ i. stamp (suc i)) client server out.0
        (put results file.id (run_result out.1)) (counted m out.1) files
      ∙ (check_log_file-SameEvidence crypto key quoted (memory_reads s) s (stamp 0) client server
          file).0

  -- What the checks return, one after the other, each on the storage that the one before it leaves.
  unfoldable pub outcomes : (ℕ → Stamp) → Client → Server → Storage → List LogFile → List Checked
  unfolding check_log_file
  outcomes stamp client server s [] = []
  outcomes stamp client server s (file ∷ files) =
      let (t, checked) =
        check_log_file crypto key quoted (memory_reads s) (stamp 0) client server s file in
      checked ∷ outcomes (λ i. stamp (suc i)) client server t files

  run_files-Tallies :
      (stamp : ℕ → Stamp) (client : Client) (server : Server) (s : Storage)
      (results : GoMap Text RunResult) (m : Summary) (files : List LogFile)
      → Tallies m
          (run_files crypto key quoted stamp client server s results m files).2
          (outcomes stamp client server s files)
  unfolding run_files outcomes
  run_files-Tallies stamp client server s results m [] = (omega arith, omega arith, omega arith)
  run_files-Tallies stamp client server s results m (file ∷ files) =
      let out = check_log_file crypto key quoted (memory_reads s) (stamp 0) client server s file in
      let rest =
        run_files crypto key quoted (λ i. stamp (suc i)) client server out.0
          (put results file.id (run_result out.1)) (counted m out.1) files in
      counted-Tallies m rest.2 out.1 (outcomes (λ i. stamp (suc i)) client server out.0 files) (
        run_files-Tallies (λ i. stamp (suc i)) client server out.0
          (put results file.id (run_result out.1)) (counted m out.1) files)

  -- For at least one file, and a server as it is stored that no other one clashes with in name or
  -- host, the counters of Run are the numbers of the checks that did not fail, that failed, by a
  -- returned error or by a result with the status error, and that found tampered lines. The
  -- server is stored as active if no check failed or found tampered lines, as in error if every
  -- check failed, and as degraded otherwise.
  pub run_resolved-Health :
      (options : Options) (stamp : ℕ → Stamp) (seen_at now : Time) (client : Client)
      (server : Server) (s : Storage) (file : LogFile) (files : List LogFile)
      → get s.servers server.id ≡ some server
      → name_or_host_taken s server.name server.host server.id ≡ false
      → IsTally
          (run_files crypto key quoted stamp client server s [] no_summary (file ∷ files)).2
          (outcomes stamp client server s (file ∷ files))
        × (x : Server) × (get
              (run_resolved crypto key quoted options stamp seen_at now client server s
                (file ∷ files)).0.servers
              server.id
            ≡ some x)
        × (x.status ≡ health_of_checks (outcomes stamp client server s (file ∷ files)))
  unfolding run_resolved name_or_host_taken
  run_resolved-Health options stamp seen_at now client server s file files h free =
      let out = run_files crypto key quoted stamp client server s [] no_summary (file ∷ files) in
      let same = run_files-servers stamp client server s [] no_summary (file ∷ files) in
      let (x, g, q) =
        record_summary-HasStatus options out.0 server out.2 (length (file ∷ files)) seen_at now
          (ap (λ m. get m server.id) same ∙ h)
          (ap (λ m. any (clashes server.name server.host server.id) (values m)) same ∙ free) in
      let tally =
        from_zero out.2 (run_files-Tallies stamp client server s [] no_summary (file ∷ files)) in
      (
        tally,
        x,
        g,
        q ∙ health_of-checks out.2 (outcomes stamp client server s (file ∷ files)) tally,
      )
    where
      from_zero :
          (m : Summary)
          → Tallies no_summary m (outcomes stamp client server s (file ∷ files))
          → IsTally m (outcomes stamp client server s (file ∷ files))
      from_zero m (a, b, c) = (omega (arith, a), omega (arith, b), omega (arith, c))
