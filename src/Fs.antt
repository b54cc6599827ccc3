-- ===== src/Fs.antt =====
-- The operating system's files as the program meets them. A call of the system takes the next
-- fault of a schedule: it works, it fails, or the process stops there. A write that fails or stops
-- leaves the first bytes written. `create_dir_all` makes directories; other calls do not ask whether
-- the directory of a file is there. What is not modelled: permissions, and data that the system
-- loses after a write.
pub mod FilePath
pub mod Failure
pub mod Calls
pub mod Triple
pub mod Directories
pub mod Reads
pub mod Checked
