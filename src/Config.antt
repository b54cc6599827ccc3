-- ===== src/Config.antt =====
-- Runtime metadata in the managed prefix: src/config.rs.
pub mod Metadata
pub mod Store
pub mod Holds
pub mod Persist
pub mod Read
pub mod Fresh
pub mod Initial
