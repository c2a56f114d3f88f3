-- ===== src/Manifest.antt =====
-- crates/malleus-manifest: the system manifest, its units and its validation.
pub mod Units
pub mod Schema
pub mod Diagnostics
pub mod Checks
pub mod Validate
