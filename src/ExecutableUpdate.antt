-- ===== src/ExecutableUpdate.antt =====
-- The crash-recoverable replacement of the runtime executable: src/executable_update.rs, as it is
-- built outside Windows.
pub mod Types
pub mod Stamp
pub mod Classify
pub mod Staging
pub mod Protocol
pub mod Candidate
pub mod Commands
pub mod Facts
pub mod Setting
pub mod Names
pub mod Steps
pub mod Apply
pub mod Recover
pub mod Ownership
pub mod Installation
pub mod UpdateLock
pub mod External
pub mod Entry
pub mod Discard
pub mod Converge
