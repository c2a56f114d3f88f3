-- ===== src/CortexM/FaultEntry/Stages.antt =====
-- The stages that a run from a reset goes through, and that every step and every fault keeps to
-- them.
use mathlib.Core.Path.{subst}
use malleus_rtos.Base.{
  ◌≡◌, ◌≢◌, ◌⊎◌, inl, inr, refl, sym, ◌∙◌, arith, Bool, true, false, List, [], ◌∷◌, All, ◌==◌,
}
use malleus_rtos.CortexM.Startup.{capture_reset, capture_armed}
use malleus_rtos.CortexM.Fault.{
  FaultEvidence, Store, capture_complete, evidence_of, read_exception_frame, frame_or_unavailable,
  fault_capture, publish, write_words,
}
use malleus_rtos.CortexM.Fault.Publication.{finished, write_words-state, after_words-finished}
use malleus_rtos.Base.Lists.{All-append}
use malleus_rtos.CortexM.FaultEntry.{
  capture_capturing, Fault, select_stack, fault_entry, Phase, initializing, starting, running,
  entering, publishing, halted, Machine, reset_machine, dispatch, proceed, step, interrupt, Reach,
  at_reset, after_step, after_fault,
}

-- The finished evidence of a fault.
abbrev pub whole : Fault → FaultEvidence
whole f =
    let sp = select_stack f.lr f.msp f.psp in
    finished (
      evidence_of f.scb (frame_or_unavailable (read_exception_frame f.memory sp f.lr f.scb.cfsr))
        f.ipsr f.lr sp)

-- A store in which the capture of `f` was entered.
pub record IsSpent (f : Fault) (s : Store) : Type 0 where
  pub state : (s.state ≡ capture_capturing) ⊎ (s.state ≡ capture_complete)
  pub complete : s.state ≡ capture_complete → s.evidence ≡ whole f

-- The stages of a run, by phase, store and the two records of the past.
pub data Stage : Phase → Store → Bool → List Fault → Type 0 where
  at_memory : {s : Store} → s.state ≡ capture_reset → Stage initializing s false []
  at_start : {s : Store} → s.state ≡ capture_reset → Stage starting s true []
  in_kernel : {s : Store} → s.state ≡ capture_armed → Stage running s true []
  early_fault :
      (f : Fault) {s : Store} {ready : Bool}
      → s.state ≡ capture_reset
      → Stage (entering f) s ready []
  first_fault : (f : Fault) {s : Store} → s.state ≡ capture_armed → Stage (entering f) s true []
  later_fault : (f g : Fault) {s : Store} → IsSpent f s → Stage (entering g) s true (f ∷ [])
  in_capture :
      (f : Fault) {s : Store} {ss : List Store}
      → IsSpent f s
      → All (IsSpent f) ss
      → Stage (publishing ss) s true (f ∷ [])
  stopped_early : {s : Store} {ready : Bool} → s.state ≡ capture_reset → Stage halted s ready []
  stopped : (f : Fault) {s : Store} → IsSpent f s → Stage halted s true (f ∷ [])

abbrev pub IsStaged : Machine → Type 0
IsStaged m = Stage m.phase m.store m.memory_ready m.captured

-- The stores of a capture: while the state stays, nothing is claimed of the evidence.
unclaimed :
    (f : Fault) (s : Store) (ts : List Store)
    → s.state ≡ capture_capturing
    → All (λ t. t.state ≡ s.state) ts
    → All (IsSpent f) ts
unclaimed f s [] e all = tt
unclaimed f s (t ∷ ts) e (same, all) = (
  record { state = inl (same ∙ e); complete = λ c. absurd (omega arith) },
  unclaimed f s ts e all,
)

capture-IsSpent :
    (f : Fault) (s : Store)
    → s.state ≡ capture_capturing
    → All
        (IsSpent f)
        (fault_capture f.order f.scb f.memory f.ipsr f.lr (select_stack f.lr f.msp f.psp) s)
unfolding fault_capture publish
capture-IsSpent f s e =
    All-append (IsSpent f) (write_words _ f.order.words s) _
      (unclaimed f s _ e (write_words-state _ f.order.words s))
      (
        record { state = inl e; complete = λ c. absurd (omega arith) },
        (
          record { state = inr refl; complete = λ c. after_words-finished f.order _ s.evidence },
          tt,
        ),
      )

-- A fault that finds the capture unarmed, and one that finds it armed.
pub entering_unarmed :
    (f : Fault) (m : Machine)
    → m.store.state ≢ capture_armed
    → proceed (entering f) m ≡ record m { phase = halted }
unfolding proceed fault_entry dispatch
entering_unarmed f m h =
    let unarmed : (m.store.state == capture_armed) ≡ false = ground arith in rw unarmed refl

pub entering_armed :
    (f : Fault) (m : Machine)
    → m.store.state ≡ capture_armed
    → let s : Store = record m.store { state = capture_capturing } in
      proceed (entering f) m ≡ record m {
        phase =
            publishing
              (fault_capture f.order f.scb f.memory f.ipsr f.lr (select_stack f.lr f.msp f.psp) s);
        store = s;
        captured = f ∷ m.captured;
      }
unfolding proceed fault_entry dispatch
entering_armed f m h = rw h refl

proceed-IsStaged :
    (p : Phase) (m : Machine)
    → m.phase ≡ p
    → Stage p m.store m.memory_ready m.captured
    → IsStaged (proceed p m)
unfolding proceed
proceed-IsStaged p m at (at_memory e) = at_start e
proceed-IsStaged p m at (at_start e) = in_kernel refl
proceed-IsStaged p m at (in_kernel e) =
    subst (λ (q : Phase). Stage q m.store true []) (sym at) (in_kernel e)
proceed-IsStaged p m at (early_fault f e) =
    subst IsStaged (sym (entering_unarmed f m (λ h. omega arith))) (stopped_early e)
proceed-IsStaged p m at (first_fault f e) =
    let s : Store = record m.store { state = capture_capturing } in
    subst IsStaged (sym (entering_armed f m e)) (
      in_capture f (record { state = inl refl; complete = λ c. absurd (omega arith) })
        (capture-IsSpent f s refl))
proceed-IsStaged p m at (later_fault f g e) =
    subst IsStaged (sym (entering_unarmed g m (λ h. omega arith))) (stopped f e)
proceed-IsStaged p m at (in_capture f {ss = []} e all) = stopped f e
proceed-IsStaged p m at (in_capture f {ss = s ∷ ss} e (first, rest)) = in_capture f first rest
proceed-IsStaged p m at (stopped_early e) =
    subst (λ (q : Phase). Stage q m.store m.memory_ready []) (sym at) (stopped_early e)
proceed-IsStaged p m at (stopped f e) =
    subst (λ (q : Phase). Stage q m.store true (f ∷ [])) (sym at) (stopped f e)

faulted :
    {p : Phase} {s : Store} {ready : Bool} {past : List Fault} (g : Fault)
    → Stage p s ready past
    → Stage (entering g) s ready past
faulted g (at_memory e) = early_fault g e
faulted g (at_start e) = early_fault g e
faulted g (in_kernel e) = first_fault g e
faulted g (early_fault f e) = early_fault g e
faulted g (first_fault f e) = first_fault g e
faulted g (later_fault f h e) = later_fault f g e
faulted g (in_capture f e all) = later_fault f g e
faulted g (stopped_early e) = early_fault g e
faulted g (stopped f e) = later_fault f g e

interrupt-IsStaged : (f : Fault) (m : Machine) → IsStaged m → IsStaged (interrupt f m)
unfolding interrupt
interrupt-IsStaged f m h = faulted f h

step-IsStaged : (m : Machine) → IsStaged m → IsStaged (step m)
unfolding step
step-IsStaged m h = proceed-IsStaged m.phase m refl h

pub Reach-IsStaged : {left : Store} (m : Machine) → Reach left m → IsStaged m
Reach-IsStaged m at_reset = unfold reset_machine in at_memory refl
Reach-IsStaged m (after_step {m = before} r) = step-IsStaged before (Reach-IsStaged before r)
Reach-IsStaged m (after_fault {m = before} f r) =
    interrupt-IsStaged f before (Reach-IsStaged before r)
