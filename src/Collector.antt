-- ===== src/Collector.antt =====
-- `Collector` of crates/collector/src/lib.rs: the recording of a run, over the storage.
pub mod Requests
pub mod Checks
pub mod Runs
pub mod Spans
pub mod Records
pub mod Patch
pub mod Session
pub mod Integrity
pub mod Lifecycle
