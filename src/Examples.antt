-- ===== src/Examples.antt =====
-- Concrete inputs: the hypotheses of the theorems can hold.
pub mod Codec
pub mod Updates
pub mod Stamps
pub mod Managed
pub mod Markers
pub mod Policies
pub mod Channels
pub mod Addresses
pub mod Fleets
pub mod Prefixes
pub mod Packages
pub mod Applied
pub mod Witnesses
