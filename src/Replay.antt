-- ===== src/Replay.antt =====
-- crates/replay-engine/src/lib.rs: what a replay has to run again, and the rules that it goes by.
pub mod Dirty
pub mod Rules
pub mod Ancestry
pub mod BasePoint
pub mod Upstream
pub mod Template
pub mod Effective
pub mod Layout
pub mod Plan
pub mod Copy
pub mod Persist
pub mod Respan
pub mod Containers
pub mod Fork
pub mod Keeping
pub mod Isolated
pub mod Parted
pub mod Timeline
pub mod Engine
pub mod Sandbox
pub mod KeyValues
pub mod Inputs
pub mod Outcome
