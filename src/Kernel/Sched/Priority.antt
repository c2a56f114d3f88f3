-- ===== src/Kernel/Sched/Priority.antt =====
-- crates/malleusrt/src/sched.rs, `Priority`: a level below 32, and its hardware counterpart.
pub mod Hardware
use malleus_rtos.Base.{ℕ, ◌+◌, ◌-◌, ◌*◌, ◌/◌, ◌%◌, ◌^◌, ◌<◌, ltb, ◌==◌, if◌then◌else◌}
use malleus_rtos.Base.{Option, none, some, saturating_mul_u16}

abbrev pub priority_levels : ℕ
priority_levels = 32

-- The newtype over `u8`.
pub record Priority : Type 0 where
  pub raw : ℕ

-- The constructors let only levels below 32 through.
abbrev pub IsPriority : Priority → Type 0
IsPriority p = p.raw < priority_levels

abbrev pub idle : Priority
idle = record { raw = 0 }

abbrev pub max_priority : Priority
max_priority = record { raw = priority_levels - 1 }

unfoldable pub new : ℕ → Option Priority
new level = if ltb level priority_levels then some (record { raw = level }) else none

-- `none` is the panic of the assertion.
unfoldable pub new_const : ℕ → Option Priority
new_const level = if ltb level priority_levels then some (record { raw = level }) else none

abbrev pub level : Priority → ℕ
level p = p.raw

-- `PRIORITY_LEVELS.trailing_zeros()`.
abbrev pub shift : ℕ
shift = 5

-- The scaled level, after the cast to `u8`.
unfoldable pub scaled_level : ℕ → ℕ → ℕ
scaled_level p hw_levels = saturating_mul_u16 p hw_levels / 2 ^ shift % 2 ^ 8

unfoldable pub to_hardware : Priority → ℕ → ℕ
unfolding scaled_level
to_hardware p hw_levels =
    if hw_levels == 0 then 0 else (hw_levels - 1) - scaled_level p.raw hw_levels
