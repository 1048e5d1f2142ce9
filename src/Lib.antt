-- ===== src/Lib.antt =====
-- Verification of LogMonitor (leonideliseev/log-integrity).
--
-- LogMonitor collects log lines of remote servers, stores a hash of each, seals runs of lines as
-- chunks with a hash of their own, and checks later that the lines on the server still have the
-- stored hashes. Go packages and the files that model them:
--
--   models: Models.antt, the records and enumerations.
--   pkg/hasher: Hasher.antt. SHA-256 and HMAC-SHA256 are a parameter, the record Crypto; that
--     the hexadecimal output has no line feed is the one law assumed of them.
--   internal/repository/errors.go and filters.go: Repository.antt, the result of an operation
--     with the sentinel errors, and Repository/Filters.antt. An error that wraps a sentinel
--     error is that sentinel error, any other is its text.
--   internal/service/collector: Collector/Options.antt, Split.antt and Chunks.antt
--     (normalizeOptions, splitEntries, splitChunks, buildChunks, splitEntryChunkBatches),
--     Source.antt (shouldResetCollection, parseLineOutput and the loop of CollectLogFile over
--     the lines), Remote.antt (the commands and their output; the SSH client is the record
--     Client), Collect.antt (CollectLogFile and CollectServer).
--   internal/service/integrity: Integrity.antt (findTamperedEntries and what it calls),
--     Integrity/Check.antt (CheckLogFile and CheckServer). It reads a repository through the
--     record Reads; Increasing.antt has the order of lines that both services rely on.
--   internal/jobs: Jobs.antt (the manager), Jobs/System.antt (the manager among callers and
--     workers, as a step relation).
--   internal/repository/memory: Memory.antt (Storage), Memory/Entries.antt, Chunks.antt,
--     Batch.antt, Servers.antt, LogFiles.antt, Checks.antt, Paginate.antt, and
--     Memory/Listings.antt with its children (the filtered listings and their orders);
--     Memory/Answers.antt fills the record Reads of the integrity service.
--   internal/service/health: Health.antt, Health/Records.antt (the records, over the in-memory
--     servers). crons/locks: Locks.antt.
--   internal/service/server: ServerService.antt (Create, Update, Delete, Retry),
--     ServerService/Discover.antt, ServerService/Problems.antt (the problems and their page),
--     ServerService/Dashboard.antt. models/problem.go: Models/Problem.antt.
--   internal/service/discovery: Discovery.antt (the class of a path, the parser of the output,
--     the system of a host), Discovery/Sync.antt (Discover, Sync, DiscoverAndSync). The
--     discoverers of the systems are a parameter.
--   internal/service/check and internal/service/logfile: CheckService.antt and
--     LogFileService.antt (Run and Collect). crons/integrity and crons/collection: Runners.antt
--     (processServer).
--   internal/security: Security.antt. AES-GCM and base64 are a parameter, the record Aead, with
--     the two laws that the code relies on.
--
-- The modules below these, and Memory/Index.antt, Memory/Registry.antt, hold the proofs.
-- Prelude.antt and its children have what the program uses of Go: maps as association lists,
-- int64 with its wrap-around, sort, strings as lists of bytes. Tests.antt runs the code on
-- concrete inputs.
--
-- A method takes the state and returns the new one. What a method reads of the outside, the
-- clock, a drawn identifier and the text of an error, is an argument. A critical section under a
-- mutex is one operation; interleavings are sequences of steps. A Go map that a loop ranges over
-- is taken in one order, where the result does not depend on it. The numbers of lines and chunks,
-- sizes and counters are int64; times are numbers of nanoseconds.
--
-- Loops recurse on their slice. Two have a bound of their own: the trim of the job history drops
-- a job in each round, so the number of jobs bounds the rounds; the loop that splits a slice
-- takes at least one item in each round, so its length does. The backoff loop counts its own
-- steps.
--
-- Not modelled: the PostgreSQL repository, whose work is SQL; the transports, the application
-- wiring, the configuration and the loggers, which are input and output over other libraries; the
-- SSH client; the scheduler, the discovery runner and the pools of workers of the runners, whose
-- files are taken one after the other; the entry service, which passes its arguments on. Letters
-- are folded to lower case as in ASCII, in names and hosts of servers, and white space is that of
-- one-byte characters. An index of the in-memory storage that leads to nothing, on which Go would
-- panic, is passed over; a storage whose index is right has none. The text that wraps a returned
-- error is left out.
pub mod Prelude
pub mod Models
pub mod Hasher
pub mod Increasing
pub mod Collector
pub mod Repository
pub mod Integrity
pub mod Jobs
pub mod Memory
pub mod Health
pub mod ServerService
pub mod Locks
pub mod Security
pub mod CheckService
pub mod LogFileService
pub mod Runners
pub mod Discovery
pub mod Tests
