-- ===== src/RuntimeUpdate.antt =====
-- The coordination of updates: src/runtime_update.rs.
pub mod Packages
pub mod Archive
pub mod Extracted
pub mod Replacement
pub mod Select
pub mod Filenames
pub mod Order
pub mod Newest
pub mod Helper
pub mod Applying
