-- ===== src/Examples.antt =====
-- The theorems at concrete inputs, and runs of the definitions.
pub mod Fixtures
mod Store
mod Recording
mod Planning
mod Comparing
mod Summing
pub mod Sandboxing
mod Parting
mod Changing
mod Growing
pub mod Replaying
