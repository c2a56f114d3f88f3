-- ===== src/Manifest/Checks.antt =====
-- crates/malleus-manifest/src/validate.rs: the six checks of a manifest.
pub mod Names
pub mod Priorities
pub mod Timing
pub mod Stacks
pub mod Channels
pub mod Capabilities
