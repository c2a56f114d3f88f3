-- ===== src/Kernel/Ipc/Footprint.antt =====
-- The bytes that a channel reserves.
use malleus_rtos.Base.{◌*◌, ◌≤◌, ◌≡◌, arith, u16_max}
use native.Mathlib.Nat.{mul-le-mul}
use malleus_rtos.Kernel.Ipc.{ChannelDescriptor, static_bytes}

-- With 16-bit counts and sizes the footprint of a channel is the exact product: a 32-bit `usize`
-- holds it.
pub static_bytes_exact :
    (c : ChannelDescriptor)
    → c.capacity.count ≤ u16_max
    → c.max_message_bytes ≤ u16_max
    → static_bytes c ≡ c.capacity.count * c.max_message_bytes
unfolding static_bytes
static_bytes_exact c h k =
    let bound : c.capacity.count * c.max_message_bytes ≤ u16_max * u16_max = mul-le-mul h k in
    ground arith
