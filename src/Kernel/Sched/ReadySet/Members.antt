-- ===== src/Kernel/Sched/ReadySet/Members.antt =====
-- The ready set as a set of priorities: membership after each operation, and equality by members.
use Prim.Native.Nat.{bit_and, bit_or}
use malleus_rtos.Base.{ℕ, ◌-◌, ◌*◌, ◌^◌, ◌≤◌, ◌<◌, ◌≡◌, sym, ap, ◌∙◌, arith}
use malleus_rtos.Base.{Bool, true, false, not, ◌&&◌, ◌||◌, ◌==◌, if◌then◌else◌, min, max}
use malleus_rtos.Base.{==_iff, Bool-cases, inl, inr, ◌⊎◌}
use malleus_rtos.Base.Bits.{bit, bit-lt, bit-bit_or, bit-bit_and}
use malleus_rtos.Base.Masks.{
  complement, bit_and-pow, bit-zero, bit-pow, bit-complement, bit_or-lt, bit_and-le, word_ext,
}
use native.Mathlib.Nat.{one-le-pow, pow-le-pow_right}
use malleus_rtos.Kernel.Sched.Priority.{Priority, IsPriority}
use malleus_rtos.Kernel.Sched.ReadySet.{ReadySet, IsWord, new, mask, insert, remove, contains}

pow-lt-word : (k : ℕ) → k < 32 → 2 ^ k < 2 ^ 32
pow-lt-word k h =
    let le : 2 ^ k ≤ 2 ^ 31 =
      pow-le-pow_right {n = 2} (omega arith) {i = k} {j = 31} (omega arith) in
    omega arith

-- The shift loses nothing for a valid priority.
pub mask_lem : (p : Priority) → IsPriority p → mask p ≡ 2 ^ p.raw
unfolding mask
mask_lem p h = omega (arith, pow-lt-word p.raw h)

nonzero_product : (b m : ℕ) → b < 2 → 0 < m → not (b * m == 0) ≡ (b == 1)
nonzero_product b m hb hm = grind arith

-- The tests on bits that the three operations come down to.
max_test : (a b c : ℕ) → a < 2 → (max a (if b == c then 1 else 0) == 1) ≡ (b == c || a == 1)
max_test a b c h = ground arith

min_test :
    (a b c : ℕ) → a < 2 → (min a (1 - (if b == c then 1 else 0)) == 1) ≡ (not (b == c) && a == 1)
min_test a b c h = ground arith

bit_of_test : (a b : ℕ) → a < 2 → b < 2 → (a == 1) ≡ (b == 1) → a ≡ b
bit_of_test a b ha hb h = ground arith

-- Membership is the bit of the priority.
pub contains-bit :
    (s : ReadySet) (p : Priority) → IsPriority p → contains s p ≡ (bit p.raw s.bits == 1)
unfolding contains
contains-bit s p h =
    rw (mask_lem p h, bit_and-pow p.raw s.bits)
      (nonzero_product (bit p.raw s.bits) (2 ^ p.raw) (bit-lt p.raw s.bits)
        (one-le-pow p.raw 2 (omega arith)))

pub contains-new : (p : Priority) → IsPriority p → contains new p ≡ false
unfolding new
contains-new p h = rw (contains-bit _ p h, bit-zero p.raw)

-- Inserting a valid priority adds that one member and leaves every other as it was.
pub contains-insert :
    (s : ReadySet) (p q : Priority)
    → IsPriority p
    → IsPriority q
    → contains (insert s p) q ≡ (q.raw == p.raw) || contains s q
unfolding insert
contains-insert s p q hp hq =
    rw
      (
        contains-bit (record { bits = bit_or s.bits (mask p) }) q hq,
        contains-bit s q hq,
        mask_lem p hp,
        bit-bit_or,
        bit-pow,
      )
      (max_test (bit q.raw s.bits) q.raw p.raw (bit-lt q.raw s.bits))

-- Removing a priority drops that one member and leaves every other as it was.
pub contains-remove :
    (s : ReadySet) (p q : Priority)
    → IsPriority p
    → IsPriority q
    → contains (remove s p) q ≡ (not (q.raw == p.raw) && contains s q)
unfolding remove
contains-remove s p q hp hq =
    rw
      (
        contains-bit (record { bits = bit_and s.bits (complement 32 (mask p)) }) q hq,
        contains-bit s q hq,
        mask_lem p hp,
        bit-bit_and,
        bit-complement q.raw 32 (2 ^ p.raw) hq (pow-lt-word p.raw hp),
        bit-pow,
      )
      (min_test (bit q.raw s.bits) q.raw p.raw (bit-lt q.raw s.bits))

pub new-IsWord : IsWord new
unfolding new
new-IsWord = omega arith

pub insert-IsWord : (s : ReadySet) (p : Priority) → IsPriority p → IsWord s → IsWord (insert s p)
unfolding insert
insert-IsWord s p hp h = rw (mask_lem p hp) (bit_or-lt 32 _ _ h (pow-lt-word p.raw hp))

pub remove-IsWord : (s : ReadySet) (p : Priority) → IsWord s → IsWord (remove s p)
unfolding remove
remove-IsWord s p h = omega (arith, bit_and-le 32 s.bits (complement 32 (mask p)) h)

-- A ready set is determined by its members.
pub ReadySet_ext :
    (s t : ReadySet)
    → IsWord s
    → IsWord t
    → ((p : Priority) → IsPriority p → contains s p ≡ contains t p)
    → s ≡ t
ReadySet_ext s t hs ht h = ap (λ x. record { bits = x }) (word_ext 32 s.bits t.bits hs ht same)
  where
    same : (j : ℕ) → j < 32 → bit j s.bits ≡ bit j t.bits
    same j b =
        let p : Priority = record { raw = j } in
        bit_of_test (bit j s.bits) (bit j t.bits) (bit-lt j s.bits) (bit-lt j t.bits)
          (sym (contains-bit s p b) ∙ h p b ∙ contains-bit t p b)

-- The order in which two priorities become ready does not show in the set.
pub insert_comm :
    (s : ReadySet) (p q : Priority)
    → IsWord s
    → IsPriority p
    → IsPriority q
    → insert (insert s p) q ≡ insert (insert s q) p
insert_comm s p q hs hp hq =
    ReadySet_ext _ _ (insert-IsWord _ q hq (insert-IsWord s p hp hs))
      (insert-IsWord _ p hp (insert-IsWord s q hq hs))
      λ r hr.
        rw
          (
            contains-insert (insert s p) q r hq hr,
            contains-insert s p r hp hr,
            contains-insert (insert s q) p r hp hr,
            contains-insert s q r hq hr,
          )
          (swap (r.raw == q.raw) (r.raw == p.raw) (contains s r))
  where
    swap : (a b c : Bool) → (a || (b || c)) ≡ (b || (a || c))
    swap a b c = ground arith

-- Inserting a priority that is not ready and then removing it gives the set back.
pub remove-insert :
    (s : ReadySet) (p : Priority)
    → IsWord s
    → IsPriority p
    → contains s p ≡ false
    → remove (insert s p) p ≡ s
remove-insert s p hs hp absent =
    ReadySet_ext _ _ (remove-IsWord _ p (insert-IsWord s p hp hs)) hs λ r hr.
      rw (contains-remove (insert s p) p r hp hr, contains-insert s p r hp hr)
        (restored r (Bool-cases (r.raw == p.raw)))
  where
    restored :
        (r : Priority)
        → ((r.raw == p.raw) ≡ true) ⊎ ((r.raw == p.raw) ≡ false)
        → (not (r.raw == p.raw) && (r.raw == p.raw || contains s r)) ≡ contains s r
    restored r (inl e) =
        let same : r ≡ p = ap (λ x. record { raw = x }) ((==_iff r.raw p.raw).0 e) in
        rw e (sym (ap (contains s) same ∙ absent))
    restored r (inr e) = rw e
