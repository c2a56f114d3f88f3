-- ===== src/CortexM/FaultEntry/Examples.antt =====
-- Tests and instances of the theorems on the fault entry.
use Prim.Native.Nat.{bit_and}
use malleus_rtos.Base.{
  ℕ, zero, suc, ◌^◌, ◌≡◌, ◌⊎◌, refl, true, [], ◌∷◌, none, some, ◌==◌, if◌then◌else◌,
}
use malleus_rtos.CortexM.Fault.{Store, frame_layout, frame_used_psp, capture_complete}
use malleus_rtos.CortexM.Fault.Publication.{ascending}
use malleus_rtos.CortexM.FaultEntry.{
  Fault, fault_entry, select_stack, Machine, running, halted, reset_machine, step, interrupt, steps,
  Reach, at_reset, after_step, after_fault,
}
use malleus_rtos.CortexM.FaultEntry.Reached.{
  capture_steps, Reach-captured_once, Reach-completed, running_fault_completes,
}
use malleus_rtos.CortexM.FaultEntry.Stages.{whole}
use malleus_rtos.Base.{◌||◌, arith}
use malleus_rtos.Base.Bits.{bit}
use malleus_rtos.CortexM.FaultEntry.{configure_probe_fault}
use malleus_rtos.CortexM.FaultEntry.Probe.{bit-configure_probe_fault}
use malleus_rtos.CortexM.FaultEntry.Stack.{select_stack-frame_layout}

-- An undefined instruction in a thread on the process stack.
abbrev planted : Fault
planted = record {
  order = ascending;
  scb = record { mmfar = 0; bfar = 0; cfsr = 2 ^ 16; hfsr = 0; shcsr = 0x70008 };
  memory = λ a. a;
  ipsr = 6;
  lr = 0xfffffffd;
  psp = 0x20002000;
  msp = 0x20020000;
}

-- What a run before the reset left: a complete capture.
abbrev left_over : Store
left_over = record { evidence = whole planted; state = capture_complete }

unarmed_is_terminal : (fault_entry planted capture_complete).call ≡ none
unfolding fault_entry
unarmed_is_terminal = refl

-- A fault before the memory is ready stops the processor without Rust.
early : (steps 1 (interrupt planted (reset_machine left_over))).phase ≡ halted
unfolding steps interrupt reset_machine
early = refl

abbrev booted : Machine
booted = step (step (reset_machine left_over))

booted-Reach : Reach left_over booted
booted-Reach = after_step (after_step at_reset)

booted_runs : booted.phase ≡ running
unfolding step reset_machine
booted_runs = refl

abbrev struck_twice : Machine
struck_twice = interrupt planted (step (interrupt planted booted))

Reach-captured_once_example :
    (struck_twice.captured ≡ [])
    ⊎ ((f : Fault) × (struck_twice.captured ≡ f ∷ []) × (struck_twice.memory_ready ≡ true))
Reach-captured_once_example =
    Reach-captured_once left_over struck_twice
      (after_fault planted (after_step (after_fault planted booted-Reach)))

-- The same two faults, the second of them after the last store of the capture.
abbrev published : Machine
published = steps 22 (interrupt planted booted)

steps-Reach : (n : ℕ) (m : Machine) → Reach left_over m → Reach left_over (steps n m)
unfolding steps
steps-Reach zero m r = r
steps-Reach (suc n) m r = steps-Reach n (step m) (after_step r)

published_complete : (interrupt planted published).store.state ≡ capture_complete
unfolding steps interrupt reset_machine
published_complete = refl

-- One store earlier the evidence has its magic, and the state is not complete.
unpublished : (steps 21 (interrupt planted booted)).store.evidence ≡ whole planted
unfolding steps interrupt reset_machine
unpublished = refl

Reach-completed_example :
    (f : Fault) × ((interrupt planted published).captured ≡ f ∷ [])
    × ((interrupt planted published).store.evidence ≡ whole f)
Reach-completed_example =
    Reach-completed left_over (interrupt planted published)
      (after_fault planted
        (steps-Reach 22 (interrupt planted booted) (after_fault planted booted-Reach)))
      published_complete

running_fault_completes_example :
    let after = steps (capture_steps planted) (interrupt planted booted) in
    (after.phase ≡ halted)
    × (after.store.state ≡ capture_complete)
    × (after.store.evidence ≡ whole planted)
    × (after.captured ≡ planted ∷ [])
running_fault_completes_example =
    running_fault_completes left_over booted planted booted-Reach booted_runs

thread_layout : frame_layout 0xfffffffd ≡ some (record { prefix_words = 0; flags = frame_used_psp })
unfolding frame_layout
thread_layout = refl

select_stack-frame_layout_example :
    select_stack 0xfffffffd 1 2 ≡ (if bit_and frame_used_psp frame_used_psp == 0 then 1 else 2)
select_stack-frame_layout_example =
    select_stack-frame_layout 0xfffffffd 1 2 (record { prefix_words = 0; flags = frame_used_psp })
      thread_layout

bit-configure_probe_fault_example : bit 17 (configure_probe_fault true 0x40001) ≡ (
    if 17 == 16 || 17 == 17
    then 1
    else if 17 == 18
    then (if true then 0 else 1)
    else bit 17 0x40001)
bit-configure_probe_fault_example = bit-configure_probe_fault true 0x40001 17 (omega arith)
