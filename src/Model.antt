-- ===== src/Model.antt =====
-- crates/core-model: the data that every other crate exchanges.
pub mod Enums
pub mod Value
pub mod Records
pub mod Summary
