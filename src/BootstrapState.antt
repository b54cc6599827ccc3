-- ===== src/BootstrapState.antt =====
-- src/bootstrap_state.rs: the marker of an installation that is in progress.
pub mod Marker
pub mod Kept
