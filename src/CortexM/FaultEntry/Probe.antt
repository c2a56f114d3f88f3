-- ===== src/CortexM/FaultEntry/Probe.antt =====
-- What the probe configures before it plants its fault.
use malleus_rtos.Base.{ℕ, ◌^◌, ◌<◌, ◌≡◌, arith, Bool, true, false, ◌==◌, if◌then◌else◌, ◌||◌}
use malleus_rtos.Base.Bits.{bit, bit-lt, bit-bit_or, bit-bit_and}
use malleus_rtos.Base.Masks.{bit-pow, bit-complement}
use malleus_rtos.CortexM.FaultEntry.{configure_probe_fault}

-- Bit by bit, the probe enables the handlers of memory and bus faults, enables that of usage
-- faults or, under escalation, disables it, and leaves every other bit of the 32 as it was.
pub bit-configure_probe_fault :
    (escalation : Bool) (current j : ℕ)
    → j < 32
    → bit j (configure_probe_fault escalation current) ≡ (
        if j == 16 || j == 17
        then 1
        else if j == 18
        then (if escalation then 0 else 1)
        else bit j current)
unfolding configure_probe_fault
bit-configure_probe_fault true current j h =
    rw
      (
        bit-bit_and,
        bit-complement j 32 (2 ^ 18) h (omega arith),
        bit-bit_or,
        bit-bit_or,
        bit-pow,
        bit-pow,
        bit-pow,
      )
      (ground (arith, bit-lt j current))
bit-configure_probe_fault false current j h =
    rw (bit-bit_or, bit-bit_or, bit-bit_or, bit-pow, bit-pow, bit-pow)
      (ground (arith, bit-lt j current))
