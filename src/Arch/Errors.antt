-- ===== src/Arch/Errors.antt =====
-- crates/malleus-arch/src/lib.rs: the errors of a port, as they are displayed.
use malleus_rtos.Base.Text.{Text, codes}

pub data ArchError : Type 0 where
  unsupported_region : ArchError
  deadline_out_of_range : ArchError
  invalid_state : ArchError

unfoldable pub display_arch_error : ArchError → Text
display_arch_error unsupported_region = codes "memory region not representable by this MPU"
display_arch_error deadline_out_of_range = codes "alarm deadline outside timer range"
display_arch_error invalid_state = codes "operation illegal in the current hardware state"
