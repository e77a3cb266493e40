-- ===== src/Lib.antt =====
-- ReplayKit records what an agent does as a run of spans, keeps the record in a store, plans which
-- spans a patched replay has to run again, and compares two runs. This library models that core.
--
-- The parts, and where each is modelled (paths are those of the repository):
--
-- Common: what the crates use of the Rust standard library. `BTreeMap` is Common/Map, maps of maps
--   and maps of vectors are Common/Table, `Result` with `?` is Common/Result, a method of an object
--   that may fail part of the way is Common/Action, `sort_by_key` is Common/Sort, `str` is
--   Common/Text, `{:016x}` and `{}` are Common/Hex, signed integers are Common/Int.
-- Model: crates/core-model/src/lib.rs. The enumerations (Enums), attribute values (Value), the records
--   (Records) and the summary of a run, `RunSummary::from_run_state` (Summary).
-- Storage: crates/storage/src/lib.rs and blob.rs. `InMemoryStorage` is a record of a `MemoryState`, one
--   map for each table, and the blobs of an `InMemoryBlobStore`. State has the tables, the
--   `ensure_` checks and single reads; Runs, Records, Artifacts, Branches and Cleanup have one
--   function for each method of the `Storage` trait, under its name. A method that writes takes the
--   state to a state or an error. Calls has the writing methods as one step of the store.
-- Workspace: crates/storage/src/workspace.rs. The capture of a directory tree into an archive
--   (Archive), the bytes of an archive and their reading (Decode, over Bytes), the calls of the file
--   system with the paths that an archive may name (Files), the restoring of an archive and the
--   change from one archive to another (Restore), and the workspace points of a run (Points).
-- Collector: crates/collector/src/lib.rs. Each method of `Collector` is an action over the store that
--   makes the calls of the source in their order; what was written before a failure stays written.
--   Requests has the arguments and errors, Checks the shared lookups, Runs, Spans, Records and Patch
--   the methods, Session the methods as the steps of a session.
-- Diff: crates/diff-engine/src/lib.rs. `spans_differ` and the loop over the spans (Compare), the
--   count of changed artifacts (Artifacts), `diff_runs` and `get_cached_diff` (Runs).
-- Replay: crates/replay-engine/src/lib.rs, inputs.rs and sandbox.rs. The search for the dirty spans,
--   `compute_dirty_map` and `push_dirty` (Dirty), the rules on patches, dispositions and statuses
--   (Rules), the walk up the parents of a span (Ancestry), the workspace snapshot that a replay starts
--   from (BasePoint), and whether a dirty span can keep its recorded outcome (Upstream). Of inputs.rs:
--   the templates (Template), key values (KeyValues), and what a patch gives a span (Inputs). Of
--   sandbox.rs: the paths of the sandbox (Sandbox) and its workspace along the run (Timeline).
--   `plan_state` is Layout, then Plan with its records (Plan/Records), the prediction of what will be
--   blocked (Plan/Predict) and the containers (Plan/Rollup). `execute_fork` is Fork, which copies the
--   records (Copy), runs each dirty span again (Respan, with its writes in Persist) and gives the
--   containers their status (Containers). Engine and Effective have the types and the lookups that
--   planning and execution share.
-- Api: crates/api/src/lib.rs. The tree and the time line of a run (Tree), its failures (Forensics) and
--   retries (Retries), the queries of the service (Queries), and `create_branch`, which forks,
--   compares, and takes the fork back where the comparison fails (Branching).
-- Examples: a recorded run, and the theorems at that run.
--
-- How they interact: the collector and the diff engine read and write the store by its calls alone.
-- So an invariant that every call keeps (Storage/Integrity) is kept by every method that is made of
-- them (Collector/Integrity). The replay engine's search reads lists of spans and edges, and the
-- summary of a run is computed by `finish_run` from the spans and artifacts that the store lists.
-- A replay writes by the calls of the store too, and each of its writes is about the run that it
-- makes (Replay/Keeping): whatever such calls keep, a fork keeps. The service puts the replay engine
-- and the diff engine one after the other over one store.
--
-- Numbers, bounds and fuel. `u64` and `usize` are natural numbers: counters that saturate are cut
-- off at 2⁶⁴ - 1, the ids of the allocator wrap at 2⁶⁴, and `as i64` wraps into the signed range.
-- `compute_dirty_map` takes a span from its queue in each round and queues no span twice, so the
-- spans and edges, and one for the fork span, bound its rounds; that this is enough is proved, for
-- every input. The walk up the parents has as many rounds as its caller gives: where a parent's
-- number is below its child's, a count above the span's number is enough. The engine gives it a
-- round for each span and one more; where the recorded parents go round in a circle the source does
-- not end, and the model answers `endless`. The walks of the service are bounded by the spans, or by
-- the edges and three more, and their results are options, with `none` where the bound does not do.
-- Each round of the search of a template takes four characters or more, so one round more than its
-- characters is enough, which is proved. The walk of a captured directory is by recursion on the
-- tree. Decimal numbers have at most twenty digits, as a `u64` has. An archive is read with its
-- lengths as natural numbers, of eight bytes each.
--
-- Parameters, for what is not in the repository or is of the host: the digest of `sha2`, the text of
-- a manifest that `serde_json` makes and its reading, the JSON of texts, `from_utf8_lossy`,
-- `canonicalize`, the texts of messages and of `{:?}`, the tree that stands at a path when a workspace
-- is captured, whether a blob path has a file, the calls of `std::fs` (a record over a type of states
-- of the file system), the name of a new sandbox, and the executors of a replay (a record of functions
-- over that state). Nothing is assumed of them, but what a theorem states as its hypothesis.
--
-- A path of an archive or of the sandbox is taken as it is written: where a symbolic link of the host
-- leads, no theorem says.
--
-- Not modelled: the SQLite storage and the local blob store (SQL and file system), the locks of the
-- in-memory store, which each call holds from its start to its end, the executors that run tools,
-- shells and models, the comparison of two workspaces for a view (`diff_workspaces`), the views that
-- rename fields, the HTTP servers, the command line, the tracing SDK and the web application.
pub mod Common
pub mod Model
pub mod Storage
pub mod Replay
pub mod Workspace
pub mod Collector
pub mod Diff
pub mod Api
pub mod Examples
