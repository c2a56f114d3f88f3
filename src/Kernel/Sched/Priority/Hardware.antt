-- ===== src/Kernel/Sched/Priority/Hardware.antt =====
-- The mapping of priorities onto interrupt priorities, where a lower number is more urgent.
use malleus_rtos.Base.{ℕ, ◌-◌, ◌*◌, ◌/◌, ◌≤◌, ◌<◌, ◌≡◌, ◌↔◌, arith, u8_max}
use malleus_rtos.Base.{some}
use malleus_rtos.Kernel.Sched.Priority.{Priority, IsPriority, idle, max_priority, to_hardware, new}
use malleus_rtos.Kernel.Sched.Priority.{scaled_level}

product_bound : (p h : ℕ) → p < 32 → h ≤ u8_max → p * h ≤ 31 * h
product_bound p h hp hh = grind arith

-- Neither the saturation nor the cast to `u8` loses anything for a valid priority.
scaled_exact : (p h : ℕ) → p < 32 → h ≤ u8_max → scaled_level p h ≡ p * h / 32
unfolding scaled_level
scaled_exact p h hp hh = omega (arith, product_bound p h hp hh)

to_hardware_exact :
    (p : Priority) (h : ℕ)
    → IsPriority p
    → 0 < h
    → h ≤ u8_max
    → to_hardware p h ≡ h - 1 - p.raw * h / 32
unfolding to_hardware
to_hardware_exact p h hp pos hh = ground (arith, scaled_exact p.raw h hp hh)

-- A constructor accepts exactly the levels below 32, and keeps the level.
pub new_iff : (n : ℕ) (p : Priority) → (new n ≡ some p) ↔ ((p.raw ≡ n) × (n < 32))
unfolding new
new_iff n p = ground arith

-- For every valid priority and every level count from 1 to 255 the hardware priority is below
-- the level count; a more urgent priority never gets a larger number; idle gets the largest,
-- `hw_levels - 1`; and the most urgent one gets 0 exactly when there are at most 32 levels.
pub to_hardware_lem :
    (p q : Priority) (hw_levels : ℕ)
    → IsPriority p
    → IsPriority q
    → 0 < hw_levels
    → hw_levels ≤ u8_max
    → (to_hardware p hw_levels < hw_levels)
      × (p.raw ≤ q.raw → to_hardware q hw_levels ≤ to_hardware p hw_levels)
      × (to_hardware idle hw_levels ≡ hw_levels - 1)
      × ((to_hardware max_priority hw_levels ≡ 0) ↔ (hw_levels ≤ 32))
to_hardware_lem p q h hp hq pos hh = (
  omega (arith, to_hardware_exact p h hp pos hh),
  (λ le. omega (
    arith,
    to_hardware_exact p h hp pos hh,
    to_hardware_exact q h hq pos hh,
    mul_mono p.raw q.raw h le,
  )),
  omega (arith, to_hardware_exact idle h (omega arith) pos hh),
  (
    (λ e. omega (arith, to_hardware_exact max_priority h (omega arith) pos hh)),
    (λ le. omega (arith, to_hardware_exact max_priority h (omega arith) pos hh)),
  ),
)
  where
    mul_mono : (a b c : ℕ) → a ≤ b → a * c ≤ b * c
    mul_mono a b c le = grind arith
