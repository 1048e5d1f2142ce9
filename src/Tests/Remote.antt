-- ===== src/Tests/Remote.antt =====
-- One collection, one check and one discovery on a server with fixed answers, and a stand-in cipher.
use mathlib.Core.Path.{subst}
use log_integrity.Prelude.{
  text_beq_iff, In, inl, inr, sym, ◌↔◌, contains, ℕ, ◌≡◌, refl, ap, true, false, not, is_empty,
  some, List, [], ◌∷◌, ◌++◌, arith, Text, codes, text_eq, length,
}
use log_integrity.Prelude.Classes.{text_beq}
use log_integrity.Prelude.GoMap.{get, put, delete}
use log_integrity.Prelude.Int.{pos, int_eq}
use log_integrity.Prelude.Strings.{has_prefix}
use log_integrity.Prelude.Sort.{sort_by}
use log_integrity.Models.{LogFile, Server, ServerStatus, LogType}
use log_integrity.Repository.{ok}
use log_integrity.Memory.{Storage, new_storage}
use log_integrity.Memory.Index.{IsIndexed}
use log_integrity.Memory.Batch.Fresh.{IsFresh}
use log_integrity.Memory.Servers.{name_or_host_taken}
use log_integrity.Memory.Answers.{memory_reads}
use log_integrity.Memory.Entries.{list_log_entries}
use log_integrity.Memory.Chunks.{list_log_chunks}
use log_integrity.Memory.Listings.Files.{list_log_files_by_server}
use log_integrity.Health.{should_skip}
use log_integrity.Locks.{new_manager, try_lock}
use log_integrity.Collector.Source.{Line, parse_line_output, requires_recollection}
use log_integrity.Collector.Remote.{
  Client, inspect_log_file_identity, read_log_lines, read_log_lines_after, parse_identity_output,
}
use log_integrity.Collector.Collect.{Service, Inputs, collect_log_file}
use log_integrity.Collector.Collect.Indexed.{collect_log_file-IsIndexed}
use log_integrity.Integrity.Check.{Stamp, check_log_file, has_changed}
use log_integrity.Integrity.Check.Verdict.{
  SameEvidence, check_log_file-SameEvidence, IsVerdict, check_log_file-IsVerdict,
}
use log_integrity.CheckService.{run_files, run_resolved, no_summary}
use log_integrity.CheckService.Health.{IsTally, outcomes, health_of_checks, run_resolved-Health}
use log_integrity.Discovery.{DiscoveredLog, new_paths}
use log_integrity.Discovery.Active.{Stands}
use log_integrity.Discovery.Exact.{sync-IsExact}
use log_integrity.Discovery.Unique.{IsListing, new_paths-IsListing}
use log_integrity.Discovery.Sync.{sync, paths, sync_discovered, deactivate_missing, files_by_path}
use log_integrity.Memory.LogFiles.{create_log_file, update_log_file}
use log_integrity.Discovery.Others.{sync-keeps_other_servers}
use log_integrity.Runners.{process_integrity}
use log_integrity.Runners.Cancelled.{process_integrity_cancelled}
use log_integrity.Security.{Aead, encrypt, decrypt, encrypted_string_prefix, decrypt-encrypt}
use log_integrity.Tests.Data.{crypto}
use log_integrity.Tests.Memory.{file, one_file, one_file-IsIndexed}
use log_integrity.Tests.Health.{server, options}

abbrev client : Client
client = record { connect = λ x. ok tt; execute = λ command. ok (codes "1\tstarted\n2\tstopped\n") }

abbrev service : Service
service = record {
  options = record {
    batch_size = pos 2;
    chunk_size = pos 1;
    chunk_hash_algo = codes "sha256";
    store_raw_content = true;
    integrity_hmac_key = codes "k";
  };
  has_chunks = true;
  has_batch_writer = true;
}

abbrev inputs : Inputs
inputs = record {
  draw = λ i. codes "e" ++ i ∷ [];
  draw_chunk = λ i. codes "c" ++ i ∷ [];
  built_at = 5;
  stored_at = 6;
  scanned_at = 7;
}

inputs-IsFresh : IsFresh one_file inputs.draw
unfolding new_storage get
inputs-IsFresh = record { unused = λ i. refl; once = λ i j p. cc }

collect_log_file-IsIndexed_example :
    IsIndexed (collect_log_file crypto service inputs client server one_file file).0
collect_log_file-IsIndexed_example =
    collect_log_file-IsIndexed crypto service refl refl (omega arith) inputs client server one_file
      file inputs-IsFresh one_file-IsIndexed

abbrev stamp : Stamp
stamp = record { drawn = codes "r1"; now = 9 }

abbrev quoted : Text → Text
quoted path = codes "'" ++ path ++ codes "'"

check_log_file-SameEvidence_example :
    SameEvidence one_file
      (check_log_file crypto
        (codes "k")
        quoted
        (memory_reads one_file)
        stamp
        client
        server
        one_file
        file).0
check_log_file-SameEvidence_example =
    check_log_file-SameEvidence crypto (codes "k") quoted (memory_reads one_file) one_file stamp
      client server file

-- What the server answers when it is asked for the lines.
client_identity : has_changed file (inspect_log_file_identity client server file) ≡ false
unfolding has_changed inspect_log_file_identity parse_identity_output requires_recollection
client_identity = refl

abbrev shown : List Line
shown = parse_line_output (codes "1\tstarted\n2\tstopped\n")

client_lines : read_log_lines client file ≡ ok shown
unfolding read_log_lines read_log_lines_after
client_lines = refl

check_log_file-IsVerdict_example : IsVerdict crypto (codes "k") shown one_file file stamp (
    check_log_file crypto
      (codes "k")
      quoted
      (memory_reads one_file)
      stamp
      client
      server
      one_file
      file)
unfolding new_storage get list_log_entries list_log_chunks sort_by text_beq
check_log_file-IsVerdict_example =
    check_log_file-IsVerdict crypto (codes "k") quoted one_file stamp client server file file shown
      one_file-IsIndexed (omega arith) (omega arith) tt refl refl refl client_identity client_lines

abbrev both : Storage
both = record one_file { servers = (codes "s", server) ∷ [] }

abbrev stamps : ℕ → Stamp
stamps i = record { drawn = codes "r" ++ i ∷ []; now = 9 }

run_resolved-Health_example :
    IsTally
      (run_files crypto (codes "k") quoted stamps client server both [] no_summary (file ∷ [])).2
      (outcomes crypto (codes "k") quoted stamps client server both (file ∷ []))
    × (x : Server) × (get
          (run_resolved crypto
            (codes "k")
            quoted
            options
            stamps
            11
            12
            client
            server
            both
            (file ∷ [])).0.servers
          (codes "s")
        ≡ some x)
    × (x.status
        ≡ health_of_checks
            (outcomes crypto (codes "k") quoted stamps client server both (file ∷ [])))
unfolding new_storage get name_or_host_taken text_beq
run_resolved-Health_example =
    run_resolved-Health crypto (codes "k") quoted options stamps 11 12 client server both file []
      refl refl

new_paths-IsListing_example :
    IsListing []
      (codes "/var/log/syslog" ∷ codes " /var/log/syslog" ∷ codes "" ∷ [])
      (new_paths [] (codes "/var/log/syslog" ∷ codes " /var/log/syslog" ∷ codes "" ∷ []))
new_paths-IsListing_example =
    new_paths-IsListing [] (codes "/var/log/syslog" ∷ codes " /var/log/syslog" ∷ codes "" ∷ [])

sync-keeps_other_servers_example :
    get
      (sync inputs.draw 9 both
        (codes "s2")
        (record { path = codes "/var/log/auth.log"; log_type = LogType.auth } ∷ [])).0.log_files
      (codes "log")
    ≡ some file
unfolding new_storage get text_beq
sync-keeps_other_servers_example =
    sync-keeps_other_servers inputs.draw 9 both (codes "s2")
      (record { path = codes "/var/log/auth.log"; log_type = LogType.auth } ∷ []) (codes "log") file
      refl (λ p. omega (arith, ap length p))

abbrev auth : DiscoveredLog
auth = record { path = codes "/var/log/auth.log"; log_type = LogType.auth }

both-keyed : (k : Text) (x : LogFile) → get both.log_files k ≡ some x → x.id ≡ k
unfolding new_storage get text_beq
both-keyed k x h = ground (arith, text_beq_iff (codes "log") k)

both-stand : (f : LogFile) → In f (list_log_files_by_server both (codes "s")) → Stands both f
unfolding new_storage get text_beq list_log_files_by_server sort_by
both-stand f (inl q) = subst (Stands both) (sym q) refl
both-stand f (inr i) = elim i [ ]

sync-IsExact_example : In (codes "/var/log/auth.log") (paths (auth ∷ [])) ↔ (
    (k : Text) × (x : LogFile) × (get
        (sync inputs.draw 9 both (codes "s") (auth ∷ [])).0.log_files
        k
      ≡ some x)
    × (x.server_id ≡ codes "s")
    × (x.path ≡ codes "/var/log/auth.log")
    × (x.is_active ≡ true))
unfolding new_storage get put delete text_beq sync sync_discovered deactivate_missing files_by_path
    list_log_files_by_server sort_by create_log_file update_log_file contains
sync-IsExact_example =
    sync-IsExact inputs.draw 9 both (sync inputs.draw 9 both (codes "s") (auth ∷ [])).0 (codes "s")
      (auth ∷ [])
      (list_log_files_by_server (sync inputs.draw 9 both (codes "s") (auth ∷ [])).0 (codes "s"))
      both-keyed both-stand refl (codes "/var/log/auth.log")

process_integrity_cancelled_example :
    (x : Server) × (get
        (process_integrity crypto
          (codes "k")
          quoted
          0
          options
          stamps
          10
          11
          12
          client
          new_manager
          both
          server).1.servers
        (codes "s")
      ≡ some x)
    × (x.status ≡ ServerStatus.active)
unfolding new_storage get try_lock should_skip list_log_files_by_server sort_by text_beq
process_integrity_cancelled_example =
    process_integrity_cancelled crypto (codes "k") quoted options stamps 10 11 12 client new_manager
      both server file [] refl refl refl refl refl

keep_but_last : Text → Text
keep_but_last [] = []
keep_but_last (c ∷ []) = []
keep_but_last (c ∷ d ∷ s) = c ∷ keep_but_last (d ∷ s)

keep_but_last-append :
    (plain nonce : Text) → length nonce ≡ 1 → keep_but_last (plain ++ nonce) ≡ plain
unfolding keep_but_last
keep_but_last-append [] [] h = refl
keep_but_last-append [] (c ∷ []) h = refl
keep_but_last-append [] (c ∷ d ∷ nonce) h = absurd (omega (arith, h))
keep_but_last-append (x ∷ []) [] h = absurd (omega (arith, h))
keep_but_last-append (x ∷ []) (c ∷ nonce) h = ap (◌∷◌ x) (keep_but_last-append [] (c ∷ nonce) h)
keep_but_last-append (x ∷ y ∷ plain) nonce h = ap (◌∷◌ x) (keep_but_last-append (y ∷ plain) nonce h)

abbrev cipher : Aead
cipher = record {
  nonce_size = 1;
  seal = λ nonce plain. plain ++ nonce;
  unseal = λ nonce sealed. some (keep_but_last sealed);
  encode = λ s. s;
  decode = λ s. some s;
  unseal-seal = λ nonce plain h. ap some (keep_but_last-append plain nonce h);
  decode-encode = λ s. refl;
}

decrypt-encrypt_example :
    (w : Text) × (encrypt (some cipher) (some (codes "n")) (codes "secret") ≡ ok w)
    × (decrypt (some cipher) w ≡ ok (codes "secret"))
    × (encrypt (some cipher) (some (codes "n")) w ≡ ok w)
    × (has_prefix w encrypted_string_prefix ≡ not (is_empty (codes "secret")))
unfolding has_prefix
decrypt-encrypt_example = decrypt-encrypt cipher (codes "n") (codes "secret") refl refl
