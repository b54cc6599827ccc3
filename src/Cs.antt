-- ===== src/Cs.antt =====
-- The cs tool, which builds runtimes and their update packages: src/bin/cs.
pub mod Names
pub mod ArtifactInfo
pub mod UpdatePackage
pub mod PlainNames
pub mod Layout
pub mod Packaged
pub mod Matching
pub mod Accepted
pub mod Compared
pub mod Agreeing
pub mod Replaces
