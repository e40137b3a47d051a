-- ===== src/Lib.antt =====
-- A model of remote-code, a controller that runs processes, agents, files and durable workflows on a
-- host, with its correctness proofs.
--
-- The durable workflow service (internal/workflow) keeps a record for each run: the states of its
-- nodes and activities, the leases of the executors and the commands that it remembers. Every call
-- takes the service's mutex, works on a clone of one record, appends events to the run's journal and
-- commits record and events in one transaction. The model follows this: a call is a function of the
-- service that returns the new service or an error, its work is a value `Work` (the clone, its new
-- events, the random bytes left), and `commit` puts the record and its events, a row for each number.
--
-- Three further parts stand by themselves: the log of a process's output, the unified diffs of
-- internal/files/patch.go, which the file service parses and applies to a text, and the layout of the
-- process windows in the terminal client. The registry of compiled definitions is built once, at the
-- start, and a run is started on a definition that it holds.
--
-- The files and the code:
--   Prelude: shared names, Boolean tests, lists, Go maps as association lists, text.
--   Workflow/Model: model.go and record.go, and the result type of the model.
--   Workflow/Definition: the compiled form of a definition and the identifier patterns of
--     definition.go.
--   Workflow/Graph: `compileGraph`, Workflow/Writes: `validateContextWriteOrdering`, Workflow/Sources: the
--     definitions as documents have them, Workflow/Compile: `compileDefinition` and
--     `normalizeResources`, Workflow/Registry: the registry of `Prepare`, all of definition.go. A
--     fallible function returns `Checked`: the value or an error of its own type. The schema compiler,
--     the script compiler and the digest of a definition are parameters (`Compilers`). Go's
--     integers are whole numbers here (`ℤ`), since documents may hold negative ones. The loop over the
--     queue of nodes runs on fuel, two more than the edges, which is proved to be enough.
--   Workflow/Script: the host functions of script.go and `runScript`. A compiled program of the
--     expression library is a parameter: a tree of host calls that ends in a value or an error.
--     SHA-256, the JSON encodings and the texts of errors are parameters too (`Platform`).
--   Workflow/Journal: `appendEvent`, `finishRun`, `failNode`, `failCurrentAttempt`, `retryBackoff`.
--   Workflow/Advance: `advance`, `resourcesAvailable`, `applyContextChanges`.
--   Workflow/Service: the state of the service, `StartRun`, `CancelRun`, `PauseRun`, `ResumeRun`,
--     `DeleteRun`, `registerCommand`, `commit`, and the buckets of store.go that they write.
--   Workflow/Activities, Workflow/Claim, Workflow/Resolve, Workflow/Reconcile: the calls of the
--     executors, `ResolveIntervention` and `Reconcile`.
--   Workflow/Calls: the calls as one step function, and sequences of them.
--   Workflow/Extends, Workflow/Ensures, Workflow/Yields, Workflow/Rules, Workflow/Stored: what a change
--     of a record keeps, rules for fallible steps, what a predicate of services has to allow for
--     every call to keep it, and the stored events by run.
--   The child modules named Keeps prove for each operation that it extends its record, and that it
--     keeps every predicate that follows the rules; the other child modules prove one property each.
--   Files/Patch: the lines of a text and the application of the hunks of a unified diff, of
--     internal/files/patch.go. Files/Patch/Script is the description against which it is proved: an
--     edit script, its old and new lines, and the hunks that a diff writes for it.
--   Files/Parse: `parseUnifiedPatch` of the same file. The hunks that its loop appends are kept as those
--     before the current one and the current one; Files/Parse/Header is `patchHunkFromHeader` and the
--     regular expression of a header, read from left to right, since no part of it can match in two
--     ways.
--   Files/Tests: a patch in full, on which the theorems of these files are applied.
--   Process/Record: `encodeProcessLogRecord` and `readProcessLogRecordAt` of internal/process/log_v2.go,
--     with the bytes of Process/Bytes. The checksum is a parameter. Process/Segment: a segment with its
--     indexes, as it is created, appended to, and rebuilt after a restart; the scan of a file runs on
--     fuel, one more than its bytes. Process/Frames: the loop of `write`, on fuel of one for each byte,
--     and the line that `rebuildLocked` finds open on each stream. Process/Tests runs them on two lines of output.
--   Cli/Layout: `calculateProcessWindowLayout` of internal/cli/multi_window_layout.go, where the
--     floating-point scores of the grids are a parameter; Cli/Tests runs it at one screen.
--   Workflow/Scene and Workflow/Tests: a run at concrete values, on which each theorem is applied.
--
-- Times and durations are natural numbers of nanoseconds, with 0 for the zero time. A Go map is an
-- association list, and an iteration over it goes in the order of the entries, where Go leaves the
-- order open. A nil pointer or an index out of range is the error `panicked`. The loop of `advance`
-- runs on fuel, one more than a bound that each round lowers, which is proved to be enough. The
-- outcome of a transaction and of the random source are part of the `Moment` of a call. Contexts that
-- are cancelled, the signals to observers and the reconcile ticker are not modelled; neither are
-- recovery from the database and the reading of definition files. Of the process log, the
-- rotation and the retention of segments and the readers are not modelled. Of the file service, the
-- reading and writing of files is not modelled; of the client, the drawing and the commands are not.
pub mod Prelude
pub mod Workflow
pub mod Files
pub mod Cli
pub mod Process
