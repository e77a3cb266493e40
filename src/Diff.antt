-- ===== src/Diff.antt =====
-- crates/diff-engine/src/lib.rs: the comparison of two recorded runs.
pub mod Compare
pub mod Artifacts
pub mod Runs
pub mod Divergence
pub mod Same
pub mod Cached
