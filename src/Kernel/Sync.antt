-- ===== src/Kernel/Sync.antt =====
-- crates/malleusrt/src/sync.rs: how a mutex bounds inversion, and why a wait ended.
use malleus_rtos.Kernel.Sched.Priority.{Priority}

pub data InversionControl : Type 0 where
  inheritance : InversionControl
  ceiling : Priority → InversionControl

pub data WakeReason : Type 0 where
  signalled expired cancelled holder_faulted : WakeReason
