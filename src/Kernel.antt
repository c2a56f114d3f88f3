-- ===== src/Kernel.antt =====
-- crates/malleusrt: the kernel's scheduling, time, tasks, faults, synchronisation and channels.
pub mod Sched
pub mod Time
pub mod Task
pub mod Fault
pub mod Ipc
pub mod Sync
pub mod Errors
