-- ===== src/Kernel/Fault.antt =====
-- crates/malleusrt/src/fault.rs: what a fault is, and what follows from it.
use malleus_rtos.Base.{ℕ, Bool, true, false, not, Option}
use malleus_rtos.Base.Text.{Text}
use malleus_rtos.Arch.Time.{Instant}
use malleus_rtos.Kernel.Task.{TaskId}

-- A panic carries its location, as text; an address is that of the hardware.
pub data FaultKind : Type 0 where
  memory_access : Option ℕ → Bool → FaultKind
  stack_overflow : FaultKind
  illegal_operation : FaultKind
  arithmetic : FaultKind
  task_panic : Option Text → FaultKind
  deadline_miss : ℕ → FaultKind
  watchdog_timeout : FaultKind
  kernel_invariant : Text → FaultKind

unfoldable pub may_have_escaped : FaultKind → Bool → Bool
may_have_escaped (memory_access address write) isolated = not isolated
may_have_escaped stack_overflow isolated = not isolated
may_have_escaped illegal_operation isolated = not isolated
may_have_escaped arithmetic isolated = false
may_have_escaped (task_panic location) isolated = false
may_have_escaped (deadline_miss overrun_ticks) isolated = false
may_have_escaped watchdog_timeout isolated = false
may_have_escaped (kernel_invariant invariant) isolated = false

pub record FaultRecord : Type 0 where
  pub task : TaskId
  pub kind : FaultKind
  pub at : Instant
  pub program_counter : Option ℕ
  pub stack_pointer : Option ℕ
  pub occurrence : ℕ

pub data Disposition : Type 0 where
  restart : Disposition
  stop : Disposition
  degrade : Text → Disposition
  reset : Disposition

pub data ResetReason : Type 0 where
  power_on external watchdog fault_escalation software_update unknown : ResetReason

unfoldable pub is_abnormal : ResetReason → Bool
is_abnormal ResetReason.watchdog = true
is_abnormal ResetReason.fault_escalation = true
is_abnormal ResetReason.unknown = true
is_abnormal ResetReason.power_on = false
is_abnormal ResetReason.external = false
is_abnormal ResetReason.software_update = false
