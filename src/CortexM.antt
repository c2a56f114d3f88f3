-- ===== src/CortexM.antt =====
-- crates/malleus-arch-cortex-m: the ARMv7-M port.
pub mod Startup
pub mod Fault
pub mod FaultEntry
pub mod PriorityBits
