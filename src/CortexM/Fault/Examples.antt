-- ===== src/CortexM/Fault/Examples.antt =====
-- Tests and instances of the theorems on the capture of a fault.
use malleus_rtos.Base.{ℕ, ◌+◌, ◌^◌, ◌≡◌, refl, arith, All, none, some, true}
use malleus_rtos.CortexM.Fault.{
  FaultEvidence, Scb, Store, evidence_magic, capture_complete, frame_layout, stacking_failed,
  frame_at, read_layout, read_exception_frame, frame_or_unavailable, evidence_of, fault_capture,
}
use malleus_rtos.CortexM.Fault.Publication.{ascending, finished, fault_capture_order}

-- The cases of the source's tests.
basic : frame_layout 0xfffffff9 ≡ some (record { prefix_words = 0; flags = 0 })
unfolding frame_layout
basic = refl

extended : frame_layout 0xffffffed ≡ some (record { prefix_words = 18; flags = 6 })
unfolding frame_layout
extended = refl

unknown_return : frame_layout 0xffffffff ≡ none
unfolding frame_layout
unknown_return = refl

stacking : stacking_failed (2 ^ 12) ≡ true
unfolding stacking_failed
stacking = refl

-- A precise data bus fault with its address.
abbrev bus_fault : Scb
bus_fault = record { mmfar = 7; bfar = 0x30000000; cfsr = 0x8200; hfsr = 0; shcsr = 0 }

abbrev memory : ℕ → ℕ
memory a = a + 1

abbrev sp : ℕ
sp = 0x20001000

abbrev captured : FaultEvidence
captured =
    evidence_of bus_fault (frame_or_unavailable (read_exception_frame memory sp 0xffffffe9 0x8200))
      5 0xffffffe9 sp

program_counter : captured.frame.pc ≡ 0x20001000 + 72 + 24 + 1
unfolding evidence_of read_exception_frame read_layout frame_layout stacking_failed frame_at
program_counter = refl

abbrev stale : Store
stale = record { evidence = record captured { magic = 9 }; state = 0x43415054 }

fault_capture_order_example :
    All
      (λ t.
        (t.evidence.magic ≡ evidence_magic → t.evidence ≡ finished captured)
        × (t.state ≡ capture_complete → t.evidence ≡ finished captured))
      (fault_capture ascending bus_fault memory 5 0xffffffe9 sp stale)
fault_capture_order_example =
    fault_capture_order ascending bus_fault memory 5 0xffffffe9 sp stale (omega arith) (omega arith)
