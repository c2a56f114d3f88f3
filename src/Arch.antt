-- ===== src/Arch.antt =====
-- crates/malleus-arch: the contract between the kernel and a port.
pub mod Time
pub mod Errors
pub mod Memory
pub mod Timer
pub mod Conformance
