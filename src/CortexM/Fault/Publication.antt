-- ===== src/CortexM/Fault/Publication.antt =====
-- The order in which the evidence of a fault is published.
use malleus_rtos.Base.{ℕ, ◌≡◌, ◌≢◌, refl, ap, arith, List, [], ◌∷◌, All}
use malleus_rtos.Base.Lists.{All-append}
use malleus_rtos.CortexM.Fault.{
  FaultEvidence, Scb, Store, Captured, Word, magic_word, version_word, exception_number_word,
  exc_return_word, stack_pointer_word, frame_flags_word, r0_word, r1_word, r2_word, r3_word,
  r12_word, lr_word, pc_word, xpsr_word, cfsr_word, hfsr_word, shcsr_word, mmfar_word, bfar_word,
  write_word, write_words, after_words, WriteOrder, evidence_magic, capture_complete,
  read_exception_frame, frame_or_unavailable, evidence_of, publish, fault_capture,
}

-- What a finished capture leaves.
abbrev pub finished : FaultEvidence → FaultEvidence
finished e = record e { magic = evidence_magic }

-- A word is the new one or the old one.
write_word-magic :
    (P : ℕ → Type 0) (e : FaultEvidence) (w : Word) (old : FaultEvidence)
    → P e.magic
    → P old.magic
    → P (write_word e w old).magic
unfolding write_word
write_word-magic P e magic_word old new kept = new
write_word-magic P e version_word old new kept = kept
write_word-magic P e exception_number_word old new kept = kept
write_word-magic P e exc_return_word old new kept = kept
write_word-magic P e stack_pointer_word old new kept = kept
write_word-magic P e frame_flags_word old new kept = kept
write_word-magic P e r0_word old new kept = kept
write_word-magic P e r1_word old new kept = kept
write_word-magic P e r2_word old new kept = kept
write_word-magic P e r3_word old new kept = kept
write_word-magic P e r12_word old new kept = kept
write_word-magic P e lr_word old new kept = kept
write_word-magic P e pc_word old new kept = kept
write_word-magic P e xpsr_word old new kept = kept
write_word-magic P e cfsr_word old new kept = kept
write_word-magic P e hfsr_word old new kept = kept
write_word-magic P e shcsr_word old new kept = kept
write_word-magic P e mmfar_word old new kept = kept
write_word-magic P e bfar_word old new kept = kept

-- The words by address.
pub ascending_complete :
    (e old : FaultEvidence)
    → after_words e
        (magic_word ∷ version_word ∷ exception_number_word ∷ exc_return_word ∷ stack_pointer_word
          ∷ frame_flags_word ∷ r0_word ∷ r1_word ∷ r2_word ∷ r3_word ∷ r12_word ∷ lr_word ∷ pc_word
          ∷ xpsr_word ∷ cfsr_word ∷ hfsr_word ∷ shcsr_word ∷ mmfar_word ∷ bfar_word ∷ [])
        old
      ≡ e
unfolding after_words write_word
ascending_complete e old = refl

abbrev pub ascending : WriteOrder
ascending = record {
  words =
      magic_word ∷ version_word ∷ exception_number_word ∷ exc_return_word ∷ stack_pointer_word
      ∷ frame_flags_word ∷ r0_word ∷ r1_word ∷ r2_word ∷ r3_word ∷ r12_word ∷ lr_word ∷ pc_word
      ∷ xpsr_word ∷ cfsr_word ∷ hfsr_word ∷ shcsr_word ∷ mmfar_word ∷ bfar_word ∷ [];
  complete = ascending_complete;
}

-- While the aggregate is written, the state of the capture stays.
pub write_words-state :
    (e : FaultEvidence) (ws : List Word) (s : Store)
    → All (λ t. t.state ≡ s.state) (write_words e ws s)
unfolding write_words
write_words-state e [] s = tt
write_words-state e (w ∷ ws) s =
    (refl, write_words-state e ws (record s { evidence = write_word e w s.evidence }))

-- A store of which no mark speaks falsely: evidence that carries its magic, or is marked complete,
-- is the finished evidence.
abbrev pub IsHonest : FaultEvidence → Store → Type 0
IsHonest e t =
    (t.evidence.magic ≡ evidence_magic → t.evidence ≡ finished e)
    × (t.state ≡ capture_complete → t.evidence ≡ finished e)

write_words-IsHonest :
    (e : FaultEvidence) (ws : List Word) (s : Store)
    → e.magic ≡ 0
    → s.evidence.magic ≢ evidence_magic
    → s.state ≢ capture_complete
    → All (IsHonest e) (write_words e ws s)
unfolding write_words
write_words-IsHonest e [] s unset stale pending = tt
write_words-IsHonest e (w ∷ ws) s unset stale pending =
    let after : Store = record s { evidence = write_word e w s.evidence } in
    let unmarked : after.evidence.magic ≢ evidence_magic =
      write_word-magic (λ n. n ≢ evidence_magic) e w s.evidence (omega arith) stale in
    (
      ((λ h. absurd (unmarked h)), (λ h. absurd (pending h))),
      write_words-IsHonest e ws after unset unmarked pending,
    )

-- What the last two stores hold.
pub after_words-finished :
    (order : WriteOrder) (e old : FaultEvidence)
    → finished (after_words e order.words old) ≡ finished e
after_words-finished order e old = ap finished (order.complete e old)

publish-IsHonest :
    (order : WriteOrder) (e : FaultEvidence) (s : Store)
    → e.magic ≡ 0
    → s.evidence.magic ≢ evidence_magic
    → s.state ≢ capture_complete
    → All (IsHonest e) (publish order e s)
unfolding publish
publish-IsHonest order e s unset stale pending =
    let last = after_words-finished order e s.evidence in
    All-append (IsHonest e) (write_words e order.words s) _
      (write_words-IsHonest e order.words s unset stale pending)
      (((λ h. last), (λ h. last)), (((λ h. last), (λ h. last)), tt))

-- At every moment of a capture that starts unfinished and over evidence without its magic, in
-- whatever order the words of the evidence are stored, evidence that carries its magic, or is
-- marked complete, is whole: no store shows the magic or the completion over older contents or over
-- some of the words.
pub fault_capture_order :
    (order : WriteOrder) (scb : Scb) (memory : ℕ → ℕ)
    (exception_number exc_return stack_pointer : ℕ) (s : Store)
    → s.evidence.magic ≢ evidence_magic
    → s.state ≢ capture_complete
    → let e =
        evidence_of scb
          (frame_or_unavailable (read_exception_frame memory stack_pointer exc_return scb.cfsr))
          exception_number
          exc_return
          stack_pointer in
      All
        (λ t.
          (t.evidence.magic ≡ evidence_magic → t.evidence ≡ finished e)
          × (t.state ≡ capture_complete → t.evidence ≡ finished e))
        (fault_capture order scb memory exception_number exc_return stack_pointer s)
unfolding fault_capture
fault_capture_order order scb memory exception_number exc_return stack_pointer s stale pending =
    publish-IsHonest order _ s (unmarked scb captured) stale pending
  where
    captured : Captured
    captured = frame_or_unavailable (read_exception_frame memory stack_pointer exc_return scb.cfsr)

    unmarked :
        (scb : Scb) (c : Captured)
        → (evidence_of scb c exception_number exc_return stack_pointer).magic ≡ 0
    unmarked scb c = refl
