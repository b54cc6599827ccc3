-- ===== src/Commands.antt =====
-- What a runtime does with its prefix: src/commands.rs and src/exec.rs.
pub mod Delegate
pub mod Disposition
pub mod States
pub mod Checks
pub mod Executable
pub mod Classified
pub mod Foreign
pub mod Bootstrap
pub mod Prepared
pub mod Recoverable
pub mod Fresh
pub mod Installed
