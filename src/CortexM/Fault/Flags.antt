-- ===== src/CortexM/Fault/Flags.antt =====
-- The single flags of a layout, of a frame that was read, and of the evidence.
use malleus_rtos.Base.Word.{powers}
use malleus_rtos.Base.{
  ℕ, zero, suc, ◌+◌, ◌*◌, ◌/◌, ◌%◌, ◌^◌, ◌<◌, ◌≡◌, ◌≢◌, ◌↔◌, ◌⊎◌, inl, inr, refl, sym, ap, ◌∙◌,
  arith, max, Bool, true, false, not, ◌||◌, ◌==◌, if◌then◌else◌, Option, none, some, Bool-cases,
}
use Prim.Native.Nat.{bit_and, bit_or}
use malleus_rtos.Base.Bits.{bit, bit-lt, bit-bit_or, bit_and_step}
use malleus_rtos.Base.Masks.{bit_and-pow, bit-pow}
use malleus_rtos.Base.Results.{some_inj}
use malleus_rtos.CortexM.Fault.{
  Scb, Captured, Layout, unavailable, frame_layout, stacking_failed, frame_at, read_layout,
  read_exception_frame, frame_or_unavailable, evidence_of, extended_frame_prefix_words,
  frame_used_psp, frame_extended, frame_valid,
}

-- The flags of a layout stay off the bits of the other flags, and tell its prefix.
abbrev IsLayout : Layout → Type 0
IsLayout l =
    (bit 0 l.flags ≡ 0)
    × (bit 3 l.flags ≡ 0)
    × (bit 4 l.flags ≡ 0)
    × (l.prefix_words ≡ bit 1 l.flags * 18)

frame_layout-IsLayout :
    (exc_return : ℕ) (l : Layout) → frame_layout exc_return ≡ some l → IsLayout l
unfolding frame_layout
frame_layout-IsLayout exc_return l h =
    choose (exc_return == 0xfffffff1 || exc_return == 0xfffffff9) (exc_return == 0xfffffffd)
      (exc_return == 0xffffffe1 || exc_return == 0xffffffe9) (exc_return == 0xffffffed) h
  where
    choose :
        (a b c d : Bool)
        → (if a
            then some (record { prefix_words = 0; flags = 0 })
            else if b
            then some (record { prefix_words = 0; flags = frame_used_psp })
            else if c
            then some
                (record { prefix_words = extended_frame_prefix_words; flags = frame_extended })
            else if d
            then some (record {
              prefix_words = extended_frame_prefix_words;
              flags = bit_or frame_extended frame_used_psp;
            })
            else none)
          ≡ some l
        → IsLayout l
    choose true b c d e = rw (sym (some_inj e)) (refl, refl, refl, refl)
    choose false true c d e = rw (sym (some_inj e)) (refl, refl, refl, refl)
    choose false false true d e = rw (sym (some_inj e)) (refl, refl, refl, refl)
    choose false false false true e = rw (sym (some_inj e)) (refl, refl, refl, refl)
    choose false false false false e = absurd (cc e)

aligned_iff : (p : ℕ) → ((not (bit_and p 0x3 == 0)) ≡ false) ↔ (p % 4 ≡ 0)
aligned_iff p = let low = low_bits p in ground arith
  where
    low_bits : (p : ℕ) → bit_and p 3 ≡ p % 4
    low_bits p = omega (arith, bit_and_step p 3, bit_and-pow 0 (p / 2))

-- The conditions under which the code touches the frame.
abbrev pub IsReadable : ℕ → ℕ → ℕ → Layout → Type 0
IsReadable stack_pointer exc_return cfsr l =
    (frame_layout exc_return ≡ some l) × (stacking_failed cfsr ≡ false) × (stack_pointer % 4 ≡ 0)

-- What reading the frame comes to.
read_layout-cases :
    (memory : ℕ → ℕ) (p cfsr : ℕ) (o : Option Layout)
    → ((l : Layout) × (o ≡ some l)
        × (stacking_failed cfsr ≡ false)
        × (p % 4 ≡ 0)
        × (read_layout memory p cfsr o
            ≡ some (record {
              frame = frame_at memory ((p + 4 * l.prefix_words) % 2 ^ 32);
              flags = bit_or l.flags frame_valid;
            })))
      ⊎ ((read_layout memory p cfsr o ≡ none)
          × ((l : Layout) → o ≡ some l → stacking_failed cfsr ≡ false → p % 4 ≢ 0))
unfolding read_layout
read_layout-cases memory p cfsr none = inr (refl, (λ l h. absurd (cc h)))
read_layout-cases memory p cfsr (some l) = elim (Bool-cases (stacking_failed cfsr)) [
  | inl e ↦ inr (rw e refl, (λ l' _ f. absurd (cc (e, f))))
  | inr e ↦ elim (Bool-cases (not (bit_and p 0x3 == 0))) [
    | inl e' ↦ inr (rw e (rw e' refl), (λ l' _ _ h. absurd (cc (e', (aligned_iff p).1 h))))
    | inr e' ↦ inl (l, refl, e, (aligned_iff p).0 e', rw e (rw e' refl))
  ]
]

positive : (k : ℕ) → 0 < 2 ^ k
positive zero = omega arith
positive (suc k) = omega (powers, positive k)

-- The test of a flag in a register reads its bit.
pub flag_cases :
    (k x : ℕ)
    → (((not (bit_and x (2 ^ k) == 0)) ≡ true) × (bit k x ≡ 1))
      ⊎ (((not (bit_and x (2 ^ k) == 0)) ≡ false) × (bit k x ≡ 0))
flag_cases k x = read (bit k x) refl (bit-lt k x)
  where
    read :
        (b : ℕ)
        → bit k x ≡ b
        → b < 2
        → (((not (bit_and x (2 ^ k) == 0)) ≡ true) × (bit k x ≡ 1))
          ⊎ (((not (bit_and x (2 ^ k) == 0)) ≡ false) × (bit k x ≡ 0))
    read zero e h =
        let masked : bit_and x (2 ^ k) ≡ 0 =
          bit_and-pow k x ∙ ap (λ (b : ℕ). b * 2 ^ k) e ∙ omega arith in
        inr (rw masked refl, e)
    read (suc zero) e h =
        let masked : bit_and x (2 ^ k) ≡ 1 * 2 ^ k =
          bit_and-pow k x ∙ ap (λ (b : ℕ). b * 2 ^ k) e in
        inl (ground (arith, positive k), e)
    read (suc (suc b)) e h = absurd (omega arith)

set_flag :
    (k cfsr j f g : ℕ)
    → bit j (if not (bit_and cfsr (2 ^ k) == 0) then bit_or f (2 ^ g) else f)
      ≡ max (bit j f) (if j == g then bit k cfsr else 0)
set_flag k cfsr j f g = elim (flag_cases k cfsr) [
  | inl (e, b) ↦ rw e (rw b (bit-bit_or j f (2 ^ g) ∙ ap (max (bit j f)) (bit-pow j g)))
  | inr (e, b) ↦ rw e (rw b (ground arith))
]

-- The flags of a frame that was read stay below those of the addresses.
pub Captured_flags :
    (memory : ℕ → ℕ) (p exc_return cfsr : ℕ)
    → let c = frame_or_unavailable (read_exception_frame memory p exc_return cfsr) in
      ((l : Layout) × IsReadable p exc_return cfsr l
        × (bit 0 c.flags ≡ 1)
        × (bit 1 c.flags * 18 ≡ l.prefix_words)
        × (c.frame ≡ frame_at memory ((p + 4 * l.prefix_words) % 2 ^ 32))
        × (bit 3 c.flags ≡ 0)
        × (bit 4 c.flags ≡ 0))
      ⊎ ((c ≡ record { frame = unavailable; flags = 0 })
          × ((l : Layout) → IsReadable p exc_return cfsr l → ⊥))
unfolding read_exception_frame
Captured_flags memory p exc_return cfsr =
    elim (read_layout-cases memory p cfsr (frame_layout exc_return)) [
      | inl (l, e, working, aligned, done) ↦
          let (low, three, four, prefix) = frame_layout-IsLayout exc_return l e in
          rw done (
            inl (
              l,
              (e, working, aligned),
              bit-bit_or 0 l.flags frame_valid ∙ ap (λ b. max b 1) low,
              omega (arith, bit-bit_or 1 l.flags frame_valid),
              refl,
              bit-bit_or 3 l.flags frame_valid ∙ ap (λ b. max b 0) three,
              bit-bit_or 4 l.flags frame_valid ∙ ap (λ b. max b 0) four,
            ))
      | inr (unread, never) ↦ rw unread (inr (refl, (λ l h. never l h.0 h.1 h.2)))
    ]

pub evidence_bit :
    (scb : Scb) (c : Captured) (n exc_return p j : ℕ)
    → bit j (evidence_of scb c n exc_return p).frame_flags
      ≡ max
          (max (bit j c.flags) (if j == 3 then bit 7 scb.cfsr else 0))
          (if j == 4 then bit 15 scb.cfsr else 0)
unfolding evidence_of
evidence_bit scb c n exc_return p j =
    set_flag 15 scb.cfsr j _ 4
    ∙ ap (λ b. max b (if j == 4 then bit 15 scb.cfsr else 0)) (set_flag 7 scb.cfsr j c.flags 3)

pub evidence_frame :
    (scb : Scb) (c : Captured) (n exc_return p : ℕ)
    → (evidence_of scb c n exc_return p).frame ≡ c.frame
unfolding evidence_of
evidence_frame scb c n exc_return p = refl
