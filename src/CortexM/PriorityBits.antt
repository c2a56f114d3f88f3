-- ===== src/CortexM/PriorityBits.antt =====
-- crates/malleus-arch-cortex-m/src/lib.rs, `priority_bits`: how many of the eight bits of a
-- priority each vendor implements, and the levels that they make.
use malleus_rtos.Base.{
  ℕ, ◌*◌, ◌%◌, ◌^◌, ◌≤◌, ◌<◌, ◌≡◌, refl, arith, ltb, if◌then◌else◌, Option, none, some, lt→ltb,
}
use native.Mathlib.Nat.{pow-le-pow_right, one-le-pow}
use malleus_rtos.Kernel.Sched.Priority.{Priority, IsPriority, to_hardware}
use malleus_rtos.Kernel.Sched.Priority.Hardware.{to_hardware_lem}

abbrev pub stm32f7 : ℕ
stm32f7 = 4

abbrev pub stm32h5 : ℕ
stm32h5 = 4

abbrev pub nrf5x : ℕ
nrf5x = 3

abbrev pub rp2xxx : ℕ
rp2xxx = 2

-- `1u16 << bits`; nothing where the shift overflows, which panics.
unfoldable pub levels : ℕ → Option ℕ
levels bits = if ltb bits 16 then some ((1 * 2 ^ bits) % 2 ^ 16) else none

vendors : (levels stm32f7 ≡ some 16) × (levels nrf5x ≡ some 8) × (levels rp2xxx ≡ some 4)
unfolding levels
vendors = (refl, refl, refl)

-- Up to seven bits, which is as far as a `u8` counts the levels, the count is exact, and the
-- kernel's priorities map below it.
pub levels-to_hardware :
    (bits : ℕ) (p : Priority)
    → bits ≤ 7
    → IsPriority p
    → (levels bits ≡ some (2 ^ bits)) × (to_hardware p (2 ^ bits) < 2 ^ bits)
unfolding levels
levels-to_hardware bits p h hp =
    let low = one-le-pow bits 2 (omega arith) in
    let high : 2 ^ bits ≤ 2 ^ 7 =
      pow-le-pow_right {n = 2} (omega arith) {i = bits} {j = 7} (omega arith) in
    let small : (1 * 2 ^ bits) % 2 ^ 16 ≡ 2 ^ bits = omega arith in
    (
      rw (lt→ltb bits 16 (omega arith), small) refl,
      (to_hardware_lem p p (2 ^ bits) hp hp (omega arith) (omega arith)).0,
    )
