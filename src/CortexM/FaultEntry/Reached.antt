-- ===== src/CortexM/FaultEntry/Reached.antt =====
-- What holds of every machine that is reached from the first store of a reset: Rust is entered for at most one fault,
-- after the memory was initialised, and the completion mark stands over that fault's evidence.
use malleus_rtos.Base.{
  ℕ, suc, ◌++◌, ◌≡◌, ◌⊎◌, inl, inr, refl, sym, ap, ◌∙◌, arith, Bool, true, List, [], ◌∷◌,
}
use malleus_rtos.CortexM.Startup.{capture_armed}
use malleus_rtos.Base.Lists.{length}
use malleus_rtos.CortexM.Fault.{
  FaultEvidence, Word, WriteOrder, Store, capture_complete, write_word, write_words, fault_capture,
  publish,
}
use malleus_rtos.CortexM.Fault.Publication.{finished, after_words-finished}
use malleus_rtos.CortexM.FaultEntry.{
  capture_capturing, Fault, Phase, publishing, running, halted, Machine, interrupt, steps, Reach,
}
use malleus_rtos.CortexM.FaultEntry.Stages.{
  whole, Stage, at_memory, at_start, in_kernel, early_fault, first_fault, later_fault, in_capture,
  stopped_early, stopped, Reach-IsStaged, entering_armed,
}

-- What the stages say of the past.
once :
    {p : Phase} {s : Store} {ready : Bool} {past : List Fault}
    → Stage p s ready past
    → (past ≡ []) ⊎ ((f : Fault) × (past ≡ f ∷ []) × (ready ≡ true))
once (later_fault f g e) = inr (f, refl, refl)
once (in_capture f e all) = inr (f, refl, refl)
once (stopped f e) = inr (f, refl, refl)
once (at_memory e) = inl refl
once (at_start e) = inl refl
once (in_kernel e) = inl refl
once (early_fault f e) = inl refl
once (first_fault f e) = inl refl
once (stopped_early e) = inl refl

completed :
    {p : Phase} {s : Store} {ready : Bool} {past : List Fault}
    → Stage p s ready past
    → s.state ≡ capture_complete
    → (f : Fault) × (past ≡ f ∷ []) × (s.evidence ≡ whole f)
completed (later_fault f g e) c = (f, refl, e.complete c)
completed (in_capture f e all) c = (f, refl, e.complete c)
completed (stopped f e) c = (f, refl, e.complete c)
completed (at_memory e) c = absurd (omega arith)
completed (at_start e) c = absurd (omega arith)
completed (in_kernel e) c = absurd (omega arith)
completed (early_fault f e) c = absurd (omega arith)
completed (first_fault f e) c = absurd (omega arith)
completed (stopped_early e) c = absurd (omega arith)

-- From the first store of the reset stub on, whatever an earlier run left and however often faults
-- strike between the steps, the capture in Rust is entered for at most one fault, and only once the
-- memory was initialised.
pub Reach-captured_once :
    (left : Store) (m : Machine)
    → Reach left m
    → (m.captured ≡ []) ⊎ ((f : Fault) × (m.captured ≡ f ∷ []) × (m.memory_ready ≡ true))
Reach-captured_once left m r = once (Reach-IsStaged m r)

-- From the first store of the reset stub on, whatever an earlier run left and however often faults
-- strike between the steps, where the state says that a capture is complete, the capture was entered for exactly one fault
-- and the store holds that fault's finished evidence.
pub Reach-completed :
    (left : Store) (m : Machine)
    → Reach left m
    → m.store.state ≡ capture_complete
    → (f : Fault) × (m.captured ≡ f ∷ []) × (m.store.evidence ≡ whole f)
Reach-completed left m r c = completed (Reach-IsStaged m r) c

armed :
    {p : Phase} {s : Store} {ready : Bool} {past : List Fault}
    → Stage p s ready past
    → p ≡ running
    → (s.state ≡ capture_armed) × (past ≡ [])
armed (in_kernel e) h = (e, refl)
armed (at_memory e) h = cc
armed (at_start e) h = cc
armed (early_fault f e) h = cc
armed (first_fault f e) h = cc
armed (later_fault f g e) h = cc
armed (in_capture f e all) h = cc
armed (stopped_early e) h = cc
armed (stopped f e) h = cc

-- One step for each store that is left, and one into the terminal loop.
publishing_runs :
    (ts : List Store) (t last : Store) (m : Machine)
    → steps (suc (suc (suc (length ts)))) (record m { phase = publishing (ts ++ (t ∷ last ∷ [])) })
      ≡ record m { phase = halted; store = last }
unfolding steps
publishing_runs [] t last m = refl
publishing_runs (s ∷ ts) t last m = publishing_runs ts t last (record m { store = s })

length-write_words :
    (e : FaultEvidence) (ws : List Word) (s : Store) → length (write_words e ws s) ≡ length ws
unfolding write_words
length-write_words e [] s = refl
length-write_words e (w ∷ ws) s =
    ap suc (length-write_words e ws (record s { evidence = write_word e w s.evidence }))

publish_runs :
    (order : WriteOrder) (e : FaultEvidence) (s : Store) (m : Machine)
    → steps
        (suc (suc (suc (length order.words))))
        (record m { phase = publishing (publish order e s) })
      ≡ record m {
        phase = halted;
        store = record { evidence = finished e; state = capture_complete };
      }
unfolding publish
publish_runs order e s m =
    let start : Machine = record m { phase = publishing (publish order e s) } in
    ap (λ (n : ℕ). steps (suc (suc (suc n))) start) (sym (length-write_words e order.words s))
    ∙ publishing_runs (write_words e order.words s) _ _ m
    ∙ ap
        (λ (d : FaultEvidence). record m {
          phase = halted;
          store = record { evidence = d; state = capture_complete };
        })
        (after_words-finished order e s.evidence)

-- The steps of a capture: the entry, the words, the two marks, and the terminal loop.
abbrev pub capture_steps : Fault → ℕ
capture_steps f = suc (suc (suc (suc (length f.order.words))))

-- The capture runs through once it is entered.
publishing_ends :
    (f : Fault) (m : Machine)
    → m.store.state ≡ capture_armed
    → steps (capture_steps f) (interrupt f m) ≡ record m {
      phase = halted;
      store = record { evidence = whole f; state = capture_complete };
      captured = f ∷ m.captured;
    }
unfolding steps fault_capture interrupt
publishing_ends f m h =
    let s : Store = record m.store { state = capture_capturing } in
    ap (steps (suc (suc (suc (length f.order.words))))) (entering_armed f (interrupt f m) h)
    ∙ publish_runs f.order _ s (record m { store = s; captured = f ∷ m.captured })

-- Where the kernel runs, a fault that no other fault interrupts ends in a complete capture, in
-- whatever order the words of its evidence are stored: after one step for the entry, one for each
-- store and one more, the processor stays in its terminal loop, the state is complete, and the store
-- holds the finished evidence of this fault, the only one for which the capture was entered.
pub running_fault_completes :
    (left : Store) (m : Machine) (f : Fault)
    → Reach left m
    → m.phase ≡ running
    → let after = steps (capture_steps f) (interrupt f m) in
      (after.phase ≡ halted)
      × (after.store.state ≡ capture_complete)
      × (after.store.evidence ≡ whole f)
      × (after.captured ≡ f ∷ [])
running_fault_completes left m f r h =
    let (ready, none_before) = armed (Reach-IsStaged m r) h in
    let ends = publishing_ends f m ready in
    (
      ap (λ (n : Machine). n.phase) ends,
      ap (λ (n : Machine). n.store.state) ends,
      ap (λ (n : Machine). n.store.evidence) ends,
      ap (λ (n : Machine). n.captured) ends ∙ ap (λ (fs : List Fault). f ∷ fs) none_before,
    )
