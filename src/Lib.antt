-- ===== src/Lib.antt =====
-- The verification development of kode-stream, a local Git-native workspace for planning documents
-- whose backend is the Go module under internal/ and cmd/.
--
-- The program is a set of services behind one HTTP API. Requests reach them through the
-- controllers of internal/server/api; what a workspace may do is decided by its action
-- capabilities; paths and names in a request pass the guards of internal/filesystem; operations are
-- recorded in the audit log, which is read through a cache; verification jobs run in goroutines of
-- their own; a scan reads a workspace within a budget and replaces the items in the index; the
-- sessions of coding agents and the layouts of the canvas are kept in files that are published by
-- renaming; and the stores of the application, files or a database, can be synchronised by hand.
-- The development has one module for each of these parts:
--
--   Audit.Cache           internal/audit/audit_cache.go, `CachedEventReader`: the reader is a record
--                         that every operation takes and returns; a query is two steps, one for each
--                         time the code takes its lock, so that histories can interleave them
--   Audit.Repository      internal/audit/audit_repository.go, `AuditRepository`: the log is the list
--                         of its lines and what stands behind the last line end; `encoding/json` is a parameter with its round trip as a law
--   Provider.Connections  internal/provider/connection.go, `ConnectionStore`
--   Provider.Registry     internal/provider/registry.go, `Registry`: factories make clients of a
--                         type that is a parameter
--   Provider.Credentials  internal/provider/credential_cipher.go, `CredentialCipher`: AES-GCM, the
--                         hash and base64 are a parameter, with the laws that the code relies on
--   Workspace.Actions     internal/workspace/action_capabilities.go, `ResolveActionCapabilities`
--                         and `ProviderAxes`
--   Verification.Jobs     internal/verification/verification_service.go: the data of a job and
--                         `projectFreshness`
--   Verification.Run      the same file: `run`, `runStep`, `failJob` and the collecting of artifacts;
--                         what the runtime answers is a record of outcomes
--   Verification.Artifacts  the same file: `collectArtifacts` and `classifyArtifact`; a directory is the
--                         tree of its entries, and `strings.ToLower` is an argument
--   Verification.Retention  the same file: `pruneTerminalJobs`
--   Verification.Service  the same file: `Start`, `GetContext`, `mutate` and the slots; calls of
--                         `Start` and goroutines of `run` are threads of a step relation, with one
--                         step for each access to the counter, the slots or the map, in any order
--   Verification.Automation  the same file: `prepareAutomationJob` and the checks that it makes, with
--                         the template check of internal/runtime/runtime_service.go
--   Verification.Quoting  `shellQuote` there and in internal/ai/ai_launch_service.go, against a
--                         reader of the words of a POSIX shell
--   Navigation            internal/navigation/navigation_repository.go: saved filters and recent
--                         items; a file is its records, or the error of reading it
--   Storage               internal/storage/sync.go: `Sync`, with the backup, the publication and its
--                         rollback, for every schedule of failures
--   Sessions.Durable      internal/ai/durable_file.go: the publication of a file with its rollback,
--                         for every way in which the file system can fail
--   Sessions.Records      internal/ai/session_record_repository.go: the records and
--                         `ValidateSessionRecord`
--   Sessions.Repository   the same file: `FileSessionRecordRepository` over Sessions.Durable; yaml is
--                         a parameter with its round trip as a law
--   Sessions.Service      internal/ai/session_record_service.go: the views, the reconciliation after
--                         a start and the observers of the terminals, over the repository
--   Scanner.Budget        internal/workspace/scanner/budget_reader.go, `budgetReader`: the reader
--                         below and the context are arguments
--   Index                 internal/item/index/index.go, `Index`, in memory and in its file;
--                         `strings.ToLower` is an argument
--   Canvas                internal/canvas/types.go and the validation of its parts, of
--                         internal/canvas/repository.go; a number of a position is of a type that
--                         is a parameter, with what the code asks of a `float64`
--   Canvas.Snapshots      the same file: `ValidateSnapshot` and `normalizeSnapshot`
--   Canvas.Placements     internal/canvas/file_repository.go: `applyPlacementPatches`
--   Canvas.Repository     the same file: `FileRepository`; yaml is a parameter, with its round trip as a law
--   Filesystem            internal/filesystem/pathguard/pathguard.go and
--                         internal/filesystem/writeguard/validation.go
--   Filesystem.Sourceguard  internal/filesystem/sourceguard/sourceguard.go, `ResolveAll`; real paths
--                         and the spelling that the system compares are arguments
--   Filesystem.Guardedwrite  internal/filesystem/guardedwrite/write.go, `replaceExisting`: a path is
--                         what stands at it, and other processes may change it between the steps
--                         that look at it; SHA-256 is an argument
--   Prelude               what these share: tests, lists, maps, results, texts and stable sorting
--
-- State is passed explicitly and an error is a value of `Result`. Times and counters are natural
-- numbers, as the code only compares and subtracts times that it read from one clock and counts up
-- from 0; an integer that may be negative is of the type ℤ. A time is 0 before it is set. A Go map
-- is a function to `Option`, or a list where the code ranges over it. Where the code walks a string
-- it is a list of code points, and its length in bytes that of the UTF-8 encoding; elsewhere it is a
-- `String`. `sort.SliceStable` is an insertion sort, whose result is the one that a stable sort
-- has. Every loop of the code is a structural recursion here, so no fuel is needed.
--
-- Not modelled are the transport (HTTP, WebSockets), SQL, the text of YAML files, the processes of
-- Git, of the runtime and of terminals, the contexts of requests on the canvas, the targets of
-- symbolic links, and the frontend under web/: they are inputs of the definitions, or the code
-- around them is left out. Concurrency is modelled where a lock is released between steps, in the
-- audit cache and the verification service, and where other processes may write between the steps,
-- in the guarded write; the other operations hold their lock throughout, and are single steps. A
-- number of 64 bits wraps where a sum can be too large for it, in the sizes of artifacts.
mod Prelude
pub mod Audit
pub mod Provider
pub mod Workspace
pub mod Verification
pub mod Navigation
pub mod Storage
pub mod Filesystem
pub mod Sessions
pub mod Scanner
pub mod Index
pub mod Canvas
