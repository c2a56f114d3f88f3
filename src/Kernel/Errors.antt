-- ===== src/Kernel/Errors.antt =====
-- crates/malleusrt/src/lib.rs: the errors of the kernel's operations, as they are displayed.
use malleus_rtos.Base.Text.{Text, codes}

pub data Error : Type 0 where
  would_block timed_out not_from_interrupt full empty : Error
  permission_denied peer_unavailable cancelled : Error

unfoldable pub display_kernel_error : Error → Text
display_kernel_error Error.would_block = codes "operation would block"
display_kernel_error Error.timed_out = codes "operation timed out"
display_kernel_error Error.not_from_interrupt =
    codes "operation not permitted from an interrupt handler"
display_kernel_error Error.full = codes "destination full"
display_kernel_error Error.empty = codes "source empty"
display_kernel_error Error.permission_denied = codes "missing capability"
display_kernel_error Error.peer_unavailable = codes "peer task unavailable"
display_kernel_error Error.cancelled = codes "operation cancelled"
