-- ===== src/CortexM/Fault/Frame.antt =====
-- What the flags of the captured evidence say of its frame and its addresses.
use malleus_rtos.Base.{ℕ, ◌*◌, ◌^◌, ◌≡◌, inl, inr, ap, arith, not, ◌==◌, if◌then◌else◌}
use Prim.Native.Nat.{bit_and}
use malleus_rtos.Base.Bits.{bit}
use malleus_rtos.CortexM.Fault.{
  Scb, Captured, read_exception_frame, frame_or_unavailable, evidence_of,
}
use malleus_rtos.CortexM.Fault.Flags.{Captured_flags, evidence_bit, flag_cases}

address_word :
    (k cfsr raw : ℕ) → (if not (bit_and cfsr (2 ^ k) == 0) then raw else 0) ≡ bit k cfsr * raw
address_word k cfsr raw = elim (flag_cases k cfsr) [
  | inl (e, b) ↦ rw e (rw b (omega arith))
  | inr (e, b) ↦ rw e (rw b (omega arith))
]

-- The flags of the two fault addresses are the hardware's validity bits, and an address that the
-- hardware does not vouch for is recorded as 0.
pub capture_addresses :
    (scb : Scb) (memory : ℕ → ℕ) (n exc_return p : ℕ)
    → let e =
        evidence_of scb
          (frame_or_unavailable (read_exception_frame memory p exc_return scb.cfsr))
          n
          exc_return
          p in
      (bit 3 e.frame_flags ≡ bit 7 scb.cfsr)
      × (bit 4 e.frame_flags ≡ bit 15 scb.cfsr)
      × (e.mmfar ≡ bit 7 scb.cfsr * scb.mmfar)
      × (e.bfar ≡ bit 15 scb.cfsr * scb.bfar)
unfolding evidence_of
capture_addresses scb memory n exc_return p =
    let c = frame_or_unavailable (read_exception_frame memory p exc_return scb.cfsr) in
    let (three, four) = clear memory in
    (
      omega (arith, evidence_bit scb c n exc_return p 3),
      omega (arith, evidence_bit scb c n exc_return p 4),
      address_word 7 scb.cfsr scb.mmfar,
      address_word 15 scb.cfsr scb.bfar,
    )
  where
    clear :
        (memory : ℕ → ℕ)
        → let c = frame_or_unavailable (read_exception_frame memory p exc_return scb.cfsr) in
          (bit 3 c.flags ≡ 0) × (bit 4 c.flags ≡ 0)
    clear memory = elim (Captured_flags memory p exc_return scb.cfsr) [
      | inl (l, readable, valid, extended, frame, three, four) ↦ (three, four)
      | inr (none_read, never) ↦ (
        ap (λ (x : Captured). bit 3 x.flags) none_read,
        ap (λ (x : Captured). bit 4 x.flags) none_read,
      )
    ]
