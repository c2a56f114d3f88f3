-- ===== src/Kernel/Ipc.antt =====
-- crates/malleusrt/src/ipc.rs and the capacities of sync.rs: channels as the build describes them.
pub mod Footprint
mod Examples
use malleus_rtos.Base.{
  ℕ, ◌*◌, ◌≤◌, ◌≡◌, min, Bool, true, false, leb, if◌then◌else◌, Option, none, some, u16_max,
  u32_max, arith,
}
use malleus_rtos.Base.Text.{Text}
use malleus_rtos.Kernel.Task.{TaskId}

pub record Capacity : Type 0 where
  pub count : ℕ

-- `Capacity::new`: `none` is its panic.
unfoldable pub capacity : ℕ → Option Capacity
capacity n = if leb 1 n then some (record { count = n }) else none

pub data Overflow : Type 0 where
  block reject drop_oldest drop_newest : Overflow

unfoldable pub can_block : Overflow → Bool
can_block Overflow.block = true
can_block Overflow.reject = false
can_block Overflow.drop_oldest = false
can_block Overflow.drop_newest = false

unfoldable pub is_lossy : Overflow → Bool
is_lossy Overflow.block = false
is_lossy Overflow.reject = false
is_lossy Overflow.drop_oldest = true
is_lossy Overflow.drop_newest = true

pub record ChannelDescriptor : Type 0 where
  pub name : Text
  pub capacity : Capacity
  pub max_message_bytes : ℕ
  pub overflow : Overflow
  pub sender : TaskId
  pub receiver : TaskId

-- The product saturates at the largest `usize`, which has 32 bits on every supported part.
unfoldable pub static_bytes : ChannelDescriptor → ℕ
static_bytes c = min (c.capacity.count * c.max_message_bytes) u32_max
