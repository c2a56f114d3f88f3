-- ===== src/CortexM/FaultEntry/Stack.antt =====
-- The stack that the assembly reads against the frame that Rust takes it for.
use Prim.Native.Nat.{bit_and}
use malleus_rtos.Base.{ℕ, ◌≡◌, arith, ◌==◌, if◌then◌else◌, some}
use malleus_rtos.CortexM.Fault.{Layout, frame_layout, frame_used_psp}
use malleus_rtos.CortexM.FaultEntry.{select_stack}

-- The assembly and the Rust side read the same bit of EXC_RETURN: for every value that the capture
-- recognises, the stack pointer that the assembly passes is the process stack's exactly where the
-- layout is flagged so.
pub select_stack-frame_layout :
    (exc_return msp psp : ℕ) (l : Layout)
    → frame_layout exc_return ≡ some l
    → select_stack exc_return msp psp ≡ (if bit_and l.flags frame_used_psp == 0 then msp else psp)
unfolding frame_layout select_stack
select_stack-frame_layout exc_return msp psp l h = ground arith
