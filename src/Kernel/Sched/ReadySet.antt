-- ===== src/Kernel/Sched/ReadySet.antt =====
-- crates/malleusrt/src/sched.rs, `ReadySet`: a 32-bit word with one bit for each priority.
pub mod Members
pub mod Highest
pub mod History
use Prim.Native.Nat.{bit_and, bit_or}
use malleus_rtos.Base.{ℕ, zero, suc, ◌+◌, ◌-◌, ◌*◌, ◌/◌, ◌%◌, ◌^◌, ◌<◌, ltb, ◌==◌, if◌then◌else◌}
use malleus_rtos.Base.{Bool, not, Option, none, some}
use malleus_rtos.Base.Masks.{complement}
use malleus_rtos.Kernel.Sched.Priority.{Priority}

-- The newtype over `u32`.
pub record ReadySet : Type 0 where
  pub bits : ℕ

abbrev pub IsWord : ReadySet → Type 0
IsWord s = s.bits < 2 ^ 32

unfoldable pub new : ReadySet
new = record { bits = 0 }

-- `1u32 << priority.0`.
unfoldable pub mask : Priority → ℕ
mask p = (1 * 2 ^ p.raw) % 2 ^ 32

unfoldable pub insert : ReadySet → Priority → ReadySet
unfolding mask
insert s p = record { bits = bit_or s.bits (mask p) }

unfoldable pub remove : ReadySet → Priority → ReadySet
unfolding mask
remove s p = record { bits = bit_and s.bits (complement 32 (mask p)) }

unfoldable pub contains : ReadySet → Priority → Bool
unfolding mask
contains s p = not (bit_and s.bits (mask p) == 0)

unfoldable pub is_empty : ReadySet → Bool
is_empty s = s.bits == 0

-- `u32::ilog2`, which the processor answers by counting leading zeros: halvings until 1 is left,
-- at most 31 for a 32-bit word.
unfoldable pub ilog2 : ℕ → ℕ → ℕ
ilog2 zero x = 0
ilog2 (suc fuel) x = let rest = ilog2 fuel (x / 2) + 1 in if ltb x 2 then 0 else rest

unfoldable pub highest : ReadySet → Option Priority
unfolding ilog2
highest s = if s.bits == 0 then none else some (record { raw = ilog2 32 s.bits % 2 ^ 8 })
