-- ===== src/CortexM/FaultEntry/Vector.antt =====
-- The machine from the reset vector on, before the first store of the reset stub.
use malleus_rtos.Base.{◌≡◌, ◌⊎◌, true, [], ◌∷◌}
use malleus_rtos.CortexM.Fault.{Store}
use malleus_rtos.CortexM.FaultEntry.{Fault, halted, vector_machine, Machine, step, interrupt}

-- The machines that steps and faults lead to from the reset vector.
pub data FromVector (left : Store) : Machine → Type 0 where
  at_vector : FromVector left (vector_machine left)
  after_step : {m : Machine} → FromVector left m → FromVector left (step m)
  after_fault : {m : Machine} (f : Fault) → FromVector left m → FromVector left (interrupt f m)

-- Before the first store: at the vector, in a fault from there, or stopped by one.
data Early (left : Store) : Machine → Type 0 where
  untouched : Early left (vector_machine left)
  struck : (f : Fault) → Early left (interrupt f (vector_machine left))
  stopped : Early left (record (vector_machine left) { phase = halted })

-- Rust was entered for no fault, or for one, after the memory was initialised.
abbrev pub IsGuarded : Machine → Type 0
IsGuarded m = (m.captured ≡ []) ⊎ ((f : Fault) × (m.captured ≡ f ∷ []) × (m.memory_ready ≡ true))
