-- ===== src/Fleet.antt =====
-- Several runtimes under one directory: src/fleet.rs.
pub mod Names
pub mod Paths
pub mod LastPart
pub mod Separation
