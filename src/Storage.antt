-- ===== src/Storage.antt =====
-- crates/storage: the errors, the in-memory store with its operations, and the blob store.
pub mod Error
pub mod Blob
pub mod Validate
pub mod State
pub mod Runs
pub mod Records
pub mod Artifacts
pub mod Branches
pub mod Cleanup
pub mod Retention
pub mod Calls
pub mod Integrity
pub mod Content
