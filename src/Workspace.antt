-- ===== src/Workspace.antt =====
-- crates/storage/src/workspace.rs: archives of the directory that an agent works in, and the points
-- of a run at which they are taken.
pub mod Archive
pub mod Points
pub mod Bytes
pub mod Files
pub mod Decode
pub mod Restore
pub mod Captured
pub mod Keeping
