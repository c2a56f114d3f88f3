-- ===== src/Kernel/Sched/ReadySet/Highest.antt =====
-- What the count of leading zeros finds: the most urgent member.
use malleus_rtos.Base.Word.{powers}
use malleus_rtos.Base.{ℕ, zero, suc, ◌+◌, ◌/◌, ◌^◌, ◌≤◌, ◌<◌, ◌≡◌, ◌↔◌, sym, ap, ◌∙◌, arith}
use malleus_rtos.Base.{true, false, none, some, ltb, Bool-cases, ==_iff}
use malleus_rtos.Base.{inl, inr}
use malleus_rtos.Base.Bits.{bit}
use malleus_rtos.Base.Masks.{bit-one-le, bit_top}
use mathlib.Core.Path.{subst}
use native.Mathlib.Decide.{dec_lt}
use native.Mathlib.Numerals.{add-one}
use native.Mathlib.Nat.{pow-le-pow_right, one-le-pow}
use malleus_rtos.Kernel.Sched.Priority.{Priority, IsPriority}
use malleus_rtos.Kernel.Sched.ReadySet.{ReadySet, IsWord, contains, is_empty, ilog2, highest}
use malleus_rtos.Kernel.Sched.ReadySet.Members.{contains-bit}

-- The bounds that make `ilog2` the floor of the binary logarithm.
ilog2_bounds : (f x : ℕ) → 0 < x → x < 2 ^ f → (2 ^ ilog2 f x ≤ x) × (x < 2 ^ suc (ilog2 f x))
unfolding ilog2
ilog2_bounds zero x pos h = absurd (omega arith)
ilog2_bounds (suc f) x pos h = elim (Bool-cases (ltb x 2)) [
  | inl e ↦ rw e (ground arith)
  | inr e ↦ rw e (grow (ilog2 f (x / 2)) (ilog2_bounds f (x / 2) (ground arith) (omega powers)))
]
  where
    grow :
        (r : ℕ) → (2 ^ r ≤ x / 2) × (x / 2 < 2 ^ suc r) → (2 ^ (r + 1) ≤ x) × (x < 2 ^ suc (r + 1))
    grow r (lo, hi) = rw add-one (omega powers)

ilog2-lt : (x : ℕ) → 0 < x → x < 2 ^ 32 → ilog2 32 x < 32
ilog2-lt x pos h = elim (dec_lt (ilog2 32 x) 32) [
  | yes small ↦ small
  | no large ↦ absurd (
      omega (
        arith,
        ilog2_bounds 32 x pos h,
        pow-le-pow_right {n = 2} (omega arith) {i = 32} {j = ilog2 32 x} (omega arith),
      ))
]

-- A member at least as urgent as every other.
pub record IsHighest (s : ReadySet) (p : Priority) : Type 0 where
  pub valid : IsPriority p
  pub member : contains s p ≡ true
  pub top : (q : Priority) → IsPriority q → contains s q ≡ true → q.raw ≤ p.raw

member_test :
    (s : ReadySet) (q : Priority) → IsPriority q → contains s q ≡ true → bit q.raw s.bits ≡ 1
member_test s q hq h = (==_iff (bit q.raw s.bits) 1).0 (sym (contains-bit s q hq) ∙ h)

some_inj : {p q : Priority} → some p ≡ some q → p ≡ q
some_inj e = cc

empty_bits : (s : ReadySet) → (is_empty s ≡ true) ↔ (s.bits ≡ 0)
unfolding is_empty
empty_bits s = ==_iff s.bits 0

abbrev top_bit : ReadySet → Priority
top_bit s = record { raw = ilog2 32 s.bits }

highest-top_bit : (s : ReadySet) → IsWord s → 0 < s.bits → highest s ≡ some (top_bit s)
unfolding highest
highest-top_bit s hs pos = ground (arith, ilog2-lt s.bits pos hs)

-- A member below which there is no room for `q` is more urgent than `q`.
pow-lt_inv : (a b : ℕ) → 2 ^ a < 2 ^ suc b → a ≤ b
pow-lt_inv a b h = elim (dec_lt b a) [
  | yes above ↦
      absurd
        (omega (arith, pow-le-pow_right {n = 2} (omega arith) {i = suc b} {j = a} (omega arith)))
  | no below ↦ omega arith
]

top_bit-IsHighest : (s : ReadySet) → IsWord s → 0 < s.bits → IsHighest s (top_bit s)
top_bit-IsHighest s hs pos =
    let (lo, hi) = ilog2_bounds 32 s.bits pos hs in
    let small = ilog2-lt s.bits pos hs in
    record {
      valid = small;
      member =
          contains-bit s (top_bit s) small
          ∙ (==_iff _ 1).1 (bit_top (ilog2 32 s.bits) s.bits lo hi);
      top = λ q hq m.
          pow-lt_inv q.raw (ilog2 32 s.bits)
            (omega (arith, bit-one-le q.raw s.bits (member_test s q hq m)));
    }

nonempty_of_member : (s : ReadySet) (q : Priority) → IsPriority q → contains s q ≡ true → 0 < s.bits
nonempty_of_member s q hq m =
    omega (arith, one-le-pow q.raw 2 (omega arith), bit-one-le q.raw s.bits (member_test s q hq m))

IsHighest-unique : (s : ReadySet) (p q : Priority) → IsHighest s p → IsHighest s q → p ≡ q
IsHighest-unique s p q hp hq =
    ap (λ x. record { raw = x })
      (omega (arith, hp.top q hq.valid hq.member, hq.top p hp.valid hp.member))

-- On a 32-bit set, `highest` returns exactly the most urgent member: a priority is returned when,
-- and only when, it is a member and no member is more urgent.
pub highest_iff : (s : ReadySet) (p : Priority) → IsWord s → (highest s ≡ some p) ↔ IsHighest s p
highest_iff s p hs = (sound, complete)
  where
    sound : highest s ≡ some p → IsHighest s p
    sound e = elim (dec_lt 0 s.bits) [
      | yes pos ↦
          subst (IsHighest s) (some_inj (sym (highest-top_bit s hs pos) ∙ e))
            (top_bit-IsHighest s hs pos)
      | no empty ↦ unfold highest in absurd (ground arith)
    ]

    complete : IsHighest s p → highest s ≡ some p
    complete h =
        let pos = nonempty_of_member s p h.valid h.member in
        highest-top_bit s hs pos
        ∙ ap some (IsHighest-unique s (top_bit s) p (top_bit-IsHighest s hs pos) h)

-- On a 32-bit set, `highest` returns nothing exactly when the set is empty, and that is exactly
-- when no priority is a member.
pub highest-none :
    (s : ReadySet)
    → IsWord s
    → ((highest s ≡ none) ↔ (is_empty s ≡ true))
      × ((is_empty s ≡ true) ↔ ((q : Priority) → IsPriority q → contains s q ≡ false))
highest-none s hs = (
  (unfold highest is_empty in (λ e. ground arith), unfold highest is_empty in (λ e. ground arith)),
  (absent, none_left),
)
  where
    absent : is_empty s ≡ true → (q : Priority) → IsPriority q → contains s q ≡ false
    absent e q hq = elim (Bool-cases (contains s q)) [
      | inl m ↦ absurd (omega (arith, (empty_bits s).0 e, nonempty_of_member s q hq m))
      | inr m ↦ m
    ]

    none_left : ((q : Priority) → IsPriority q → contains s q ≡ false) → is_empty s ≡ true
    none_left h = elim (dec_lt 0 s.bits) [
      | yes pos ↦ let t = top_bit-IsHighest s hs pos in cc (t.member, h (top_bit s) t.valid)
      | no empty ↦ (empty_bits s).1 (omega arith)
    ]
