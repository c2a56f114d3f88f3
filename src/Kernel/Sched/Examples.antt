-- ===== src/Kernel/Sched/Examples.antt =====
-- Tests and instances of the scheduler's theorems.
use malleus_rtos.Base.{◌+◌, ◌^◌, ◌≤◌, ◌<◌, ◌≡◌, ◌↔◌, refl, arith, false, none, some}
use malleus_rtos.Kernel.Sched.Priority.{Priority, IsPriority, idle, max_priority, to_hardware}
use malleus_rtos.Kernel.Sched.Priority
use malleus_rtos.Kernel.Sched.Priority.Hardware.{to_hardware_lem}
use malleus_rtos.Kernel.Sched.ReadySet.{ReadySet, insert, remove, contains, highest, is_empty}
use malleus_rtos.Base.{List, [], ◌∷◌}
use malleus_rtos.Kernel.Sched.ReadySet.{IsWord}
use malleus_rtos.Kernel.Sched.ReadySet.History.{
  Event, woken, suspended, IsHistory, replay, is_ready, IsMostUrgent, replay-is_ready,
}

abbrev low : Priority
low = record { raw = 3 }

abbrev high : Priority
high = record { raw = 17 }

abbrev low_and_high : ReadySet
low_and_high = record { bits = 2 ^ 3 + 2 ^ 17 }

-- The cases of the source's tests.
highest_wins : highest low_and_high ≡ some high
unfolding highest
highest_wins = refl

removing_the_top_reveals_the_next : highest (remove low_and_high high) ≡ some low
unfolding highest remove
removing_the_top_reveals_the_next = refl

insert_both : insert (insert (record { bits = 0 }) high) low ≡ low_and_high
unfolding insert
insert_both = refl

out_of_range : (Priority.new 32 ≡ none) × (Priority.new 31 ≡ some max_priority)
unfolding Priority.new
out_of_range = (refl, refl)

sixteen_levels : (to_hardware max_priority 16 ≡ 0) × (to_hardware idle 16 ≡ 15)
unfolding to_hardware
sixteen_levels = (refl, refl)

to_hardware_lem_example :
    (to_hardware low 16 < 16)
    × (3 ≤ 17 → to_hardware high 16 ≤ to_hardware low 16)
    × (to_hardware idle 16 ≡ 15)
    × ((to_hardware max_priority 16 ≡ 0) ↔ (16 ≤ 32))
to_hardware_lem_example =
    to_hardware_lem low high 16 (omega arith) (omega arith) (omega arith) (omega arith)

idle_absent : contains low_and_high idle ≡ false
unfolding contains
idle_absent = refl

-- The high priority woke up and was suspended again, the low one is still ready.
abbrev events : List Event
events = suspended high ∷ woken low ∷ woken high ∷ []

events-IsHistory : IsHistory events
events-IsHistory = omega arith

low_is_highest : highest (replay events) ≡ some low
unfolding highest replay remove insert malleus_rtos.Kernel.Sched.ReadySet.new
low_is_highest = refl

replay-is_ready_example :
    IsWord (replay events)
    × ((q : Priority) → IsPriority q → contains (replay events) q ≡ is_ready events q)
    × ((p : Priority) → (highest (replay events) ≡ some p) ↔ IsMostUrgent events p)
    × ((highest (replay events) ≡ none)
        ↔ ((q : Priority) → IsPriority q → is_ready events q ≡ false))
replay-is_ready_example = replay-is_ready events events-IsHistory

same_ready : (q : Priority) → is_ready events q ≡ is_ready (woken low ∷ suspended low ∷ []) q
unfolding is_ready
same_ready q = ground arith
