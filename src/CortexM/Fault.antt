-- ===== src/CortexM/Fault.antt =====
-- crates/malleus-arch-cortex-m/src/fault.rs: the capture of a terminal fault. The registers and the
-- memory are what the code reads of the hardware; a store to the evidence is a step of the record
-- that a debugger sees.
pub mod Flags
pub mod Frame
pub mod Publication
mod Examples
use malleus_rtos.Base.{
  ℕ, ◌+◌, ◌*◌, ◌%◌, ◌^◌, ◌==◌, if◌then◌else◌, Bool, true, false, not, ◌||◌, List, [], ◌∷◌, ◌++◌,
  ◌≡◌, Option, none, some,
}
use Prim.Native.Nat.{bit_and, bit_or}

abbrev pub evidence_magic : ℕ
evidence_magic = 0x4d414c46

abbrev pub capture_complete : ℕ
capture_complete = 0x444f4e45

abbrev pub extended_frame_prefix_words : ℕ
extended_frame_prefix_words = 18

abbrev pub stacking_error_mask : ℕ
stacking_error_mask = 0x3838

abbrev pub mmfar_valid : ℕ
mmfar_valid = 2 ^ 7

abbrev pub bfar_valid : ℕ
bfar_valid = 2 ^ 15

abbrev pub frame_valid : ℕ
frame_valid = 2 ^ 0

abbrev pub frame_extended : ℕ
frame_extended = 2 ^ 1

abbrev pub frame_used_psp : ℕ
frame_used_psp = 2 ^ 2

abbrev pub frame_mmfar_valid : ℕ
frame_mmfar_valid = 2 ^ 3

abbrev pub frame_bfar_valid : ℕ
frame_bfar_valid = 2 ^ 4

pub record ExceptionFrame : Type 0 where
  pub r0 : ℕ
  pub r1 : ℕ
  pub r2 : ℕ
  pub r3 : ℕ
  pub r12 : ℕ
  pub lr : ℕ
  pub pc : ℕ
  pub xpsr : ℕ

abbrev pub unavailable : ExceptionFrame
unavailable = record { r0 = 0; r1 = 0; r2 = 0; r3 = 0; r12 = 0; lr = 0; pc = 0; xpsr = 0 }

-- The eight words of the frame are kept as the frame.
pub record FaultEvidence : Type 0 where
  pub magic : ℕ
  pub version : ℕ
  pub exception_number : ℕ
  pub exc_return : ℕ
  pub stack_pointer : ℕ
  pub frame_flags : ℕ
  pub frame : ExceptionFrame
  pub cfsr : ℕ
  pub hfsr : ℕ
  pub shcsr : ℕ
  pub mmfar : ℕ
  pub bfar : ℕ

-- The values of the link register on an exception, by mode, stack and frame.
abbrev pub exc_return_handler_msp_basic : ℕ
exc_return_handler_msp_basic = 0xfffffff1

abbrev pub exc_return_thread_msp_basic : ℕ
exc_return_thread_msp_basic = 0xfffffff9

abbrev pub exc_return_thread_psp_basic : ℕ
exc_return_thread_psp_basic = 0xfffffffd

abbrev pub exc_return_handler_msp_extended : ℕ
exc_return_handler_msp_extended = 0xffffffe1

abbrev pub exc_return_thread_msp_extended : ℕ
exc_return_thread_msp_extended = 0xffffffe9

abbrev pub exc_return_thread_psp_extended : ℕ
exc_return_thread_psp_extended = 0xffffffed

-- The words ahead of the core frame, and the flags of the layout.
pub record Layout : Type 0 where
  pub prefix_words : ℕ
  pub flags : ℕ

unfoldable pub frame_layout : ℕ → Option Layout
frame_layout exc_return =
    if exc_return == exc_return_handler_msp_basic || exc_return == exc_return_thread_msp_basic
    then some (record { prefix_words = 0; flags = 0 })
    else if exc_return == exc_return_thread_psp_basic
    then some (record { prefix_words = 0; flags = frame_used_psp })
    else if exc_return == exc_return_handler_msp_extended
        || exc_return == exc_return_thread_msp_extended
    then some (record { prefix_words = extended_frame_prefix_words; flags = frame_extended })
    else if exc_return == exc_return_thread_psp_extended
    then some (record {
      prefix_words = extended_frame_prefix_words;
      flags = bit_or frame_extended frame_used_psp;
    })
    else none

unfoldable pub stacking_failed : ℕ → Bool
stacking_failed cfsr = not (bit_and cfsr stacking_error_mask == 0)

-- A volatile read of the frame's eight words; addresses wrap at 32 bits.
unfoldable pub frame_at : (ℕ → ℕ) → ℕ → ExceptionFrame
frame_at memory p = record {
  r0 = memory (p % 2 ^ 32);
  r1 = memory ((p + 4) % 2 ^ 32);
  r2 = memory ((p + 8) % 2 ^ 32);
  r3 = memory ((p + 12) % 2 ^ 32);
  r12 = memory ((p + 16) % 2 ^ 32);
  lr = memory ((p + 20) % 2 ^ 32);
  pc = memory ((p + 24) % 2 ^ 32);
  xpsr = memory ((p + 28) % 2 ^ 32);
}

-- A frame with the flags that describe it.
pub record Captured : Type 0 where
  pub frame : ExceptionFrame
  pub flags : ℕ

unfoldable pub read_layout : (ℕ → ℕ) → ℕ → ℕ → Option Layout → Option Captured
read_layout memory stack_pointer cfsr none = none
read_layout memory stack_pointer cfsr (some layout) =
    if stacking_failed cfsr || not (bit_and stack_pointer 0x3 == 0)
    then none
    else some (record {
      frame = frame_at memory ((stack_pointer + 4 * layout.prefix_words) % 2 ^ 32);
      flags = bit_or layout.flags frame_valid;
    })

unfoldable pub read_exception_frame : (ℕ → ℕ) → ℕ → ℕ → ℕ → Option Captured
unfolding read_layout
read_exception_frame memory stack_pointer exc_return cfsr =
    read_layout memory stack_pointer cfsr (frame_layout exc_return)

-- The system control block's fault registers.
pub record Scb : Type 0 where
  pub mmfar : ℕ
  pub bfar : ℕ
  pub cfsr : ℕ
  pub hfsr : ℕ
  pub shcsr : ℕ

abbrev pub frame_or_unavailable : Option Captured → Captured
frame_or_unavailable none = record { frame = unavailable; flags = 0 }
frame_or_unavailable (some c) = c

-- The evidence as it is first written, without its magic.
unfoldable pub evidence_of : Scb → Captured → ℕ → ℕ → ℕ → FaultEvidence
evidence_of scb captured exception_number exc_return stack_pointer =
    let mm = not (bit_and scb.cfsr mmfar_valid == 0) in
    let bf = not (bit_and scb.cfsr bfar_valid == 0) in
    let flags = if mm then bit_or captured.flags frame_mmfar_valid else captured.flags in
    record {
      magic = 0;
      version = 1;
      exception_number = exception_number;
      exc_return = exc_return;
      stack_pointer = stack_pointer;
      frame_flags = if bf then bit_or flags frame_bfar_valid else flags;
      frame = captured.frame;
      cfsr = scb.cfsr;
      hfsr = scb.hfsr;
      shcsr = scb.shcsr;
      mmfar = if mm then scb.mmfar else 0;
      bfar = if bf then scb.bfar else 0;
    }

-- What survives the fault: the evidence and the state of the capture.
pub record Store : Type 0 where
  pub evidence : FaultEvidence
  pub state : ℕ

-- The words of the evidence.
pub data Word : Type 0 where
  magic_word : Word
  version_word : Word
  exception_number_word : Word
  exc_return_word : Word
  stack_pointer_word : Word
  frame_flags_word : Word
  r0_word : Word
  r1_word : Word
  r2_word : Word
  r3_word : Word
  r12_word : Word
  lr_word : Word
  pc_word : Word
  xpsr_word : Word
  cfsr_word : Word
  hfsr_word : Word
  shcsr_word : Word
  mmfar_word : Word
  bfar_word : Word

-- One word of the evidence, stored over what was there.
unfoldable pub write_word : FaultEvidence → Word → FaultEvidence → FaultEvidence
write_word e magic_word old = record old { magic = e.magic }
write_word e version_word old = record old { version = e.version }
write_word e exception_number_word old = record old { exception_number = e.exception_number }
write_word e exc_return_word old = record old { exc_return = e.exc_return }
write_word e stack_pointer_word old = record old { stack_pointer = e.stack_pointer }
write_word e frame_flags_word old = record old { frame_flags = e.frame_flags }
write_word e r0_word old = record old { frame = record old.frame { r0 = e.frame.r0 } }
write_word e r1_word old = record old { frame = record old.frame { r1 = e.frame.r1 } }
write_word e r2_word old = record old { frame = record old.frame { r2 = e.frame.r2 } }
write_word e r3_word old = record old { frame = record old.frame { r3 = e.frame.r3 } }
write_word e r12_word old = record old { frame = record old.frame { r12 = e.frame.r12 } }
write_word e lr_word old = record old { frame = record old.frame { lr = e.frame.lr } }
write_word e pc_word old = record old { frame = record old.frame { pc = e.frame.pc } }
write_word e xpsr_word old = record old { frame = record old.frame { xpsr = e.frame.xpsr } }
write_word e cfsr_word old = record old { cfsr = e.cfsr }
write_word e hfsr_word old = record old { hfsr = e.hfsr }
write_word e shcsr_word old = record old { shcsr = e.shcsr }
write_word e mmfar_word old = record old { mmfar = e.mmfar }
write_word e bfar_word old = record old { bfar = e.bfar }

-- The store after each word of the aggregate write, and the evidence after the last.
unfoldable pub write_words : FaultEvidence → List Word → Store → List Store
unfolding write_word
write_words e [] s = []
write_words e (w ∷ ws) s =
    let after : Store = record s { evidence = write_word e w s.evidence } in
    after ∷ write_words e ws after

unfoldable pub after_words : FaultEvidence → List Word → FaultEvidence → FaultEvidence
unfolding write_word
after_words e [] old = old
after_words e (w ∷ ws) old = after_words e ws (write_word e w old)

-- A volatile write of an aggregate is no single store. The language leaves open in which order its
-- words reach the memory; after the last of them the memory holds the value, whatever it held.
pub record WriteOrder : Type 0 where
  pub words : List Word
  pub complete : (e old : FaultEvidence) → after_words e words old ≡ e

-- The store after each word of the first volatile write, and after each of the two others.
unfoldable pub publish : WriteOrder → FaultEvidence → Store → List Store
unfolding write_words after_words
publish order e s =
    let last : FaultEvidence = record (after_words e order.words s.evidence) {
      magic = evidence_magic;
    } in
    write_words e order.words s
    ++ (record s { evidence = last } ∷ record { evidence = last; state = capture_complete } ∷ [])

-- `__malleus_fault_capture` up to the loop in which it stays.
unfoldable pub fault_capture : WriteOrder → Scb → (ℕ → ℕ) → ℕ → ℕ → ℕ → Store → List Store
unfolding read_exception_frame evidence_of publish
fault_capture order scb memory exception_number exc_return stack_pointer s =
    publish order
      (evidence_of scb
        (frame_or_unavailable (read_exception_frame memory stack_pointer exc_return scb.cfsr))
        exception_number exc_return stack_pointer)
      s
