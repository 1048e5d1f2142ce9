-- ===== src/Integrity/Check/Verdict.antt =====
-- The verdict that CheckLogFile returns and stores.
use mathlib.Core.Path.{subst}
use log_integrity.Prelude.{
  ◌^◌, ◌<◌, ◌≡◌, refl, sym, ap, ◌∙◌, false, not, none, some, List, [], ◌∷◌, arith, All, Text,
  text_eq, keep, length, is_empty, if◌then◌else◌, if_elim, ◌++◌,
}
use log_integrity.Prelude.GoMap.{get, put, get-put_self}
use log_integrity.Models.{Server, LogFile, CheckResult, CheckStatus, TamperedEntry}
use log_integrity.Hasher.{Crypto}
use log_integrity.Increasing.{in_range}
use log_integrity.Repository.{Result, ok, err, Result-elim}
use log_integrity.Memory.{Storage}
use log_integrity.Memory.Entries.{exists, list_log_entries, count_log_entries}
use log_integrity.Memory.Index.{IsIndexed}
use log_integrity.Memory.Batch.Stored.{ok_inj}
use log_integrity.Memory.Chunks.{list_log_chunks}
use log_integrity.Memory.Checks.{create_check_result, completed_result}
use log_integrity.Memory.LogFiles.{check_ids}
use log_integrity.Memory.Paginate.{paginate_page}
use log_integrity.Memory.Answers.{
  memory_reads, memory_reads-Answers, list_log_entries-IsIncreasing, or_panic,
}
use log_integrity.Collector.Source.{Line}
use log_integrity.Collector.Remote.{Client, inspect_log_file_identity, read_log_lines}
use log_integrity.Integrity.{Reads, find_tampered_entries}
use log_integrity.Integrity.Compare.{IsSealed}
use log_integrity.Integrity.Detect.{IsExact}
use log_integrity.Integrity.Exact.{find_tampered_entries-IsExact}
use log_integrity.Integrity.Check.{
  Checked, Stamp, after_create, compared_result, current_by_line, save_result, store_error_result,
  compare_lines, has_changed, check_log_file, error_only, connect_message, changed_message,
  read_message, failed_result,
}

-- The same maps of servers, files, entries and chunks.
abbrev pub SameEvidence : Storage → Storage → Type 0
SameEvidence s t =
    (t.servers ≡ s.servers)
    × (t.log_files ≡ s.log_files)
    × (t.entries ≡ s.entries)
    × (t.entries_by_log_file ≡ s.entries_by_log_file)
    × (t.chunks ≡ s.chunks)
    × (t.chunks_by_log_file ≡ s.chunks_by_log_file)

create_check_result-SameEvidence :
    (s : Storage) (stamp : Stamp) (result : CheckResult)
    → SameEvidence s (create_check_result s stamp.drawn stamp.now result).0
unfolding create_check_result
create_check_result-SameEvidence s stamp result =
    if_elim (λ (r : Storage × Result (Unit {0})). SameEvidence s r.0)
      (not (exists (get s.log_files result.log_file_id))) _ _
      (λ q. (refl, refl, refl, refl, refl, refl))
      (λ q.
        if_elim (λ (r : Storage × Result (Unit {0})). SameEvidence s r.0)
          (exists (get s.checks (if is_empty result.id then stamp.drawn else result.id))) _ _
          (λ p. (refl, refl, refl, refl, refl, refl)) (λ p. (refl, refl, refl, refl, refl, refl)))

-- What a successful save returns.
create_check_result-stored :
    (s : Storage) (stamp : Stamp) (result : CheckResult) (file : LogFile)
    → result.id ≡ []
    → get s.log_files result.log_file_id ≡ some file
    → get s.checks stamp.drawn ≡ none
    → (create_check_result s stamp.drawn stamp.now result ≡ (
      record s {
        checks = put s.checks stamp.drawn (completed_result result stamp.drawn stamp.now);
        checks_by_log_file =
            put s.checks_by_log_file result.log_file_id
              (check_ids s result.log_file_id ++ stamp.drawn ∷ []);
      },
      ok tt,
    ))
      × (after_create s stamp result ≡ completed_result result stamp.drawn stamp.now)
unfolding create_check_result
create_check_result-stored s stamp result file i g n =
    (rw (i, g, n, create_check_result) refl, rw (i, g, n) refl)

module _ (crypto : Crypto) (key : Text) (quoted : Text → Text) (reads : Reads) where
  -- Whatever the server answers and whatever is returned, CheckLogFile leaves the servers, the
  -- files, the entries and the chunks of the storage, by identifier and by file, as they are.
  pub check_log_file-SameEvidence :
      (s : Storage) (stamp : Stamp) (client : Client) (server : Server) (file : LogFile)
      → SameEvidence s (check_log_file crypto key quoted reads stamp client server s file).0
  unfolding check_log_file store_error_result compare_lines save_result
  check_log_file-SameEvidence s stamp client server file =
      Result-elim (λ (r : Storage × Checked). SameEvidence s r.0) (client.connect server) _ _
        (λ x q. error_kept (connect_message crypto key quoted server x))
        (λ u q.
          if_elim (λ (r : Storage × Checked). SameEvidence s r.0)
            (has_changed file (inspect_log_file_identity client server file)) _ _
            (λ p. error_kept (changed_message crypto key quoted file))
            (λ p.
              Result-elim (λ (r : Storage × Checked). SameEvidence s r.0)
                (read_log_lines client file) _ _
                (λ x r. error_kept (read_message crypto key quoted file x))
                (λ lines r. compared lines)))
    where
      error_kept : (message : Text) → SameEvidence s (store_error_result s stamp file.id message).0
      error_kept message = create_check_result-SameEvidence s stamp (failed_result file.id message)

      saved :
          (result : CheckResult) (tampered : List TamperedEntry)
          → SameEvidence s (save_result s stamp result tampered).0
      saved result tampered =
          Result-elim (λ (r : Storage × Checked). SameEvidence s r.0)
            (create_check_result s stamp.drawn stamp.now result).1 _ _
            (λ x q. create_check_result-SameEvidence s stamp result)
            (λ u q. create_check_result-SameEvidence s stamp result)

      compared :
          (lines : List Line)
          → SameEvidence s (compare_lines crypto key quoted reads s stamp file lines).0
      compared lines =
          Result-elim (λ (r : Storage × Checked). SameEvidence s r.0)
            (find_tampered_entries crypto key (current_by_line [] lines) reads file.id) _ _
            (λ x q. (refl, refl, refl, refl, refl, refl))
            (λ tampered q.
              saved (compared_result file.id (count_log_entries s file.id) tampered) tampered)

  -- The way to the comparison: the server is reached, its identity is the known one, and it is read.
  reached :
      (s : Storage) (stamp : Stamp) (client : Client) (server : Server) (file : LogFile)
      (lines : List Line)
      → client.connect server ≡ ok tt
      → has_changed file (inspect_log_file_identity client server file) ≡ false
      → read_log_lines client file ≡ ok lines
      → check_log_file crypto key quoted reads stamp client server s file
        ≡ compare_lines crypto key quoted reads s stamp file lines
  unfolding check_log_file
  reached s stamp client server file lines a b c = rw (a, b, c, check_log_file) refl

  compared_ok :
      (s : Storage) (stamp : Stamp) (file : LogFile) (lines : List Line)
      (tampered : List TamperedEntry)
      → find_tampered_entries crypto key (current_by_line [] lines) reads file.id ≡ ok tampered
      → compare_lines crypto key quoted reads s stamp file lines
        ≡ save_result s stamp
            (compared_result file.id (count_log_entries s file.id) tampered)
            tampered
  unfolding compare_lines
  compared_ok s stamp file lines tampered e = rw (e, compare_lines) refl

-- The verdict on a file, stored under the drawn identifier.
pub record IsVerdict (crypto : Crypto) (key : Text) (lines : List Line) (s : Storage)
    (file : LogFile) (stamp : Stamp) (out : Storage × Checked) : Type 0 where
  pub exact :
      IsExact crypto key (current_by_line [] lines) (list_log_entries s file.id) out.1.tampered
  pub result : CheckResult
  pub returned : (out.1.result ≡ some result) × (out.1.error ≡ none)
  pub stored : get out.0.checks stamp.drawn ≡ some result
  pub status :
      result.status ≡ (if is_empty out.1.tampered then CheckStatus.ok else CheckStatus.tampered)
  pub numbers :
      (result.total_lines ≡ length (list_log_entries s file.id))
      × (result.tampered_lines ≡ length out.1.tampered)

save_result-returned :
    (s : Storage) (stamp : Stamp) (result : CheckResult) (tampered : List TamperedEntry)
    (t : Storage)
    → create_check_result s stamp.drawn stamp.now result ≡ (t, ok tt)
    → save_result s stamp result tampered ≡ (
      t,
      record { result = some (after_create s stamp result); tampered = tampered; error = none },
    )
unfolding save_result
save_result-returned s stamp result tampered t e =
    ap
      (λ (r : Storage × Result (Unit {0})). elim r.1 as (λ z. Storage × Checked) [
        | err x ↦ (r.0, error_only x)
        | ok u ↦ (
          r.0,
          record { result = some (after_create s stamp result); tampered = tampered; error = none },
        )
      ])
      e

-- On a storage whose index is right and whose chunks of the file are sealed, fewer than 2^63
-- entries and chunks each, for a stored file and an unused identifier: if the server is reached,
-- its identity has not changed and its lines are read, then CheckLogFile reports exactly the
-- stored entries that differ from those lines, up to a collision under SHA-256. It returns and
-- stores a result that is ok if nothing is reported and tampered otherwise, with the number of
-- stored entries and of the reported ones.
pub check_log_file-IsVerdict :
    (crypto : Crypto) (key : Text) (quoted : Text → Text) (s : Storage) (stamp : Stamp)
    (client : Client) (server : Server) (file model : LogFile) (lines : List Line)
    → IsIndexed s
    → length (list_log_entries s file.id) < 2 ^ 63
    → length (list_log_chunks s file.id) < 2 ^ 63
    → All
        (λ c.
          IsSealed crypto c
            (keep (in_range c.from_line_number c.to_line_number) (list_log_entries s file.id)))
        (list_log_chunks s file.id)
    → get s.log_files file.id ≡ some model
    → get s.checks stamp.drawn ≡ none
    → client.connect server ≡ ok tt
    → has_changed file (inspect_log_file_identity client server file) ≡ false
    → read_log_lines client file ≡ ok lines
    → IsVerdict crypto key lines s file stamp
        (check_log_file crypto key quoted (memory_reads s) stamp client server s file)
unfolding memory_reads
check_log_file-IsVerdict crypto key quoted s stamp client server file model lines h small few sealed
      stored unused connected same read =
    let view = list_log_entries s file.id in
    let answers = memory_reads-Answers s file.id h small in
    let (tampered, e, exact) =
      find_tampered_entries-IsExact crypto key (current_by_line [] lines) view (memory_reads s)
        file.id answers (list_log_entries-IsIncreasing s file.id h) _ (list_log_chunks s file.id)
        refl (ap or_panic (paginate_page (list_log_chunks s file.id) 0 0 few (omega arith)))
        sealed in
    let total = ok_inj answers.counts in
    let (saved, returned) =
      create_check_result-stored s stamp
        (compared_result file.id (count_log_entries s file.id) tampered) model refl stored unused in
    subst (IsVerdict crypto key lines s file stamp)
      (sym (
        reached crypto key quoted (memory_reads s) s stamp client server file lines connected same
          read
        ∙ compared_ok crypto key quoted (memory_reads s) s stamp file lines tampered e
        ∙ save_result-returned s stamp _ tampered _ saved))
      (record {
        exact = exact;
        result =
            completed_result (compared_result file.id (count_log_entries s file.id) tampered)
              stamp.drawn stamp.now;
        returned = (ap some returned, refl);
        stored = get-put_self s.checks stamp.drawn _;
        status = refl;
        numbers = (total, refl);
      })
