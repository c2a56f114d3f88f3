-- ===== src/Kernel/Sched.antt =====
-- crates/malleusrt/src/sched.rs: priorities and the set of ready priorities.
pub mod Priority
pub mod ReadySet
mod Examples
