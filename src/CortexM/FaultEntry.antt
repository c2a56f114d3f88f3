-- ===== src/CortexM/FaultEntry.antt =====
-- crates/malleus-arch-cortex-m/src/fault.rs: the assembly that a fault enters, with the planted
-- fault of the bring-up probe, and the processor from reset on as a machine in which a fault can
-- strike between any two steps.
pub mod Stages
pub mod Reached
pub mod Vector
pub mod Stack
pub mod Probe
mod Examples
use Prim.Native.Nat.{bit_and, bit_or}
use malleus_rtos.Base.{
  ℕ, zero, suc, ◌^◌, ◌==◌, if◌then◌else◌, Bool, true, false, List, [], ◌∷◌, Option, none, some,
}
use malleus_rtos.Base.Masks.{complement}
use malleus_rtos.CortexM.Startup.{capture_reset, capture_armed}
use malleus_rtos.CortexM.Fault.{Scb, Store, WriteOrder, fault_capture}

abbrev pub capture_capturing : ℕ
capture_capturing = 0x43415054

-- What the hardware presents when a fault is taken, with the order in which the words of its
-- evidence would reach the memory.
pub record Fault : Type 0 where
  pub order : WriteOrder
  pub scb : Scb
  pub memory : ℕ → ℕ
  pub ipsr : ℕ
  pub lr : ℕ
  pub psp : ℕ
  pub msp : ℕ

-- The three registers that the assembly passes to Rust.
pub record Arguments : Type 0 where
  pub exception_number : ℕ
  pub exc_return : ℕ
  pub stack_pointer : ℕ

-- `tst r1, #4`, and the read of one of the two stack pointers.
unfoldable pub select_stack : ℕ → ℕ → ℕ → ℕ
select_stack exc_return msp psp = if bit_and exc_return 4 == 0 then msp else psp

-- What the assembly does: the new capture state, and the call of Rust unless it stays in the
-- terminal loop.
pub record Entry : Type 0 where
  pub state : ℕ
  pub call : Option Arguments

unfoldable pub fault_entry : Fault → ℕ → Entry
unfolding select_stack
fault_entry f state =
    if state == capture_armed
    then record {
      state = capture_capturing;
      call = some (record {
        exception_number = f.ipsr;
        exc_return = f.lr;
        stack_pointer = select_stack f.lr f.msp f.psp;
      });
    }
    else record { state = state; call = none }

abbrev pub memfault_enable : ℕ
memfault_enable = 2 ^ 16

abbrev pub busfault_enable : ℕ
busfault_enable = 2 ^ 17

abbrev pub usagefault_enable : ℕ
usagefault_enable = 2 ^ 18

-- The word that `configure_probe_fault` writes to SHCSR, with and without escalation.
unfoldable pub configure_probe_fault : Bool → ℕ → ℕ
configure_probe_fault escalation current =
    let enabled = bit_or (bit_or current memfault_enable) busfault_enable in
    if escalation
    then bit_and enabled (complement 32 usagefault_enable)
    else bit_or enabled usagefault_enable

-- Where the processor is: at the first store of the reset stub, in the reset stub's two loops, in the Rust entry, in its idle loop, at
-- the fault assembly, in the capture with its remaining writes, or in one of the terminal loops.
pub data Phase : Type 0 where
  resetting : Phase
  initializing : Phase
  starting : Phase
  running : Phase
  entering : Fault → Phase
  publishing : List Store → Phase
  halted : Phase

-- With what survives a fault, and two records of the past: whether the memory was initialised, and
-- the faults for which Rust was entered.
pub record Machine : Type 0 where
  pub phase : Phase
  pub store : Store
  pub memory_ready : Bool
  pub captured : List Fault

-- At the reset vector, over what an earlier run left.
unfoldable pub vector_machine : Store → Machine
vector_machine left = record {
  phase = resetting;
  store = left;
  memory_ready = false;
  captured = [];
}

-- After the first store of the reset stub, over what an earlier run left.
unfoldable pub reset_machine : Store → Machine
reset_machine left = record {
  phase = initializing;
  store = record left { state = capture_reset };
  memory_ready = false;
  captured = [];
}

unfoldable pub dispatch : Fault → Machine → Option Arguments → Machine
unfolding fault_capture
dispatch f m none = record m { phase = halted }
dispatch f m (some a) = record m {
  phase = publishing (
      fault_capture f.order f.scb f.memory a.exception_number a.exc_return a.stack_pointer m.store);
  captured = f ∷ m.captured;
}

-- One step of the code, from each phase.
unfoldable pub proceed : Phase → Machine → Machine
unfolding fault_entry dispatch
proceed resetting m = record m {
  phase = initializing;
  store = record m.store { state = capture_reset };
}
proceed initializing m = record m { phase = starting; memory_ready = true }
proceed starting m = record m { phase = running; store = record m.store { state = capture_armed } }
proceed running m = m
proceed (entering f) m =
    let entry = fault_entry f m.store.state in
    dispatch f (record m { store = record m.store { state = entry.state } }) entry.call
proceed (publishing []) m = record m { phase = halted }
proceed (publishing (s ∷ ss)) m = record m { phase = publishing ss; store = s }
proceed halted m = m

unfoldable pub step : Machine → Machine
unfolding proceed
step m = proceed m.phase m

-- A fault, whatever the processor was doing.
unfoldable pub interrupt : Fault → Machine → Machine
interrupt f m = record m { phase = entering f }

-- Steps without a fault.
unfoldable pub steps : ℕ → Machine → Machine
unfolding step
steps zero m = m
steps (suc n) m = steps n (step m)

-- The machines that steps and faults lead to from a reset.
pub data Reach (left : Store) : Machine → Type 0 where
  at_reset : Reach left (reset_machine left)
  after_step : {m : Machine} → Reach left m → Reach left (step m)
  after_fault : {m : Machine} (f : Fault) → Reach left m → Reach left (interrupt f m)
