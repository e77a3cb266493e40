-- ===== src/Api.antt =====
-- crates/api/src/lib.rs: the service over the storage and the engines, and what it derives for its views.
pub mod Tree
pub mod Forensics
pub mod Retries
pub mod Queries
pub mod Branching
