-- ===== src/RuntimeData.antt =====
-- src/runtime_data.rs: the stamp of a runtime, as it is written behind an executable and read back.
pub mod Header
pub mod Result
pub mod Binary
pub mod Footer
pub mod Stamping
pub mod Append
pub mod Located
pub mod Roundtrip
pub mod Certificates
