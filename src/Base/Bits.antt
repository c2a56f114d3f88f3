-- ===== src/Base/Bits.antt =====
-- Single bits of a word: reading, setting and clearing, from the digit recursion that the
-- native bit operations stand for.
use Prim.Native.Nat.{ℕ, zero, suc, ◌+◌, ◌*◌, ◌/◌, ◌%◌, ◌≤◌, ◌<◌, min, max}
use Prim.Native.Nat.{bit_and, bit_or, digits, bitwise, bit_and-bitwise, bit_or-bitwise}
use mathlib.Core.Path.{◌≡◌, refl, sym, ap, ◌∙◌}
use native.Mathlib.Omega.{arith}

-- The count of digits to go makes no difference once it is large enough.
module _ (last : ℕ → ℕ) (op : ℕ → ℕ → ℕ) where
  run_out : (fuel y : ℕ) → digits last op fuel zero y ≡ last y
  run_out zero y = refl
  run_out (suc fuel) y = refl

  agree :
      (fuel fuel' x y : ℕ)
      → x ≤ fuel
      → x ≤ fuel'
      → digits last op fuel x y ≡ digits last op fuel' x y
  agree fuel fuel' zero y h h' = run_out fuel y ∙ sym (run_out fuel' y)
  agree zero fuel' (suc x) y h h' = absurd (omega arith)
  agree (suc fuel) zero (suc x) y h h' = absurd (omega arith)
  agree (suc fuel) (suc fuel') (suc x) y h h' =
      ap (λ (d : ℕ). d * 2 + op (suc x % 2) (y % 2))
        (agree fuel fuel' (suc x / 2) (y / 2) (omega arith) (omega arith))

  low_digit :
      (x y : ℕ)
      → bitwise last op (suc x) y ≡ op (suc x % 2) (y % 2) + 2 * bitwise last op (suc x / 2) (y / 2)
  low_digit x y =
      let half = suc x / 2 in
      let enough : half ≤ x = omega arith in
      omega (arith, agree x half half (y / 2) enough (omega arith))

-- The lowest digit of `|` and of `&`, ahead of the others.
pub bit_or_step : (x y : ℕ) → bit_or x y ≡ max (x % 2) (y % 2) + 2 * bit_or (x / 2) (y / 2)
bit_or_step x y = simp bit_or-bitwise (split x)
  where
    split :
        (x : ℕ)
        → bitwise (λ d. d) max x y ≡ max (x % 2) (y % 2) + 2 * bitwise (λ d. d) max (x / 2) (y / 2)
    split (suc x) = low_digit (λ d. d) max x y
    split zero = omega arith

pub bit_and_step : (x y : ℕ) → bit_and x y ≡ min (x % 2) (y % 2) + 2 * bit_and (x / 2) (y / 2)
bit_and_step x y = simp bit_and-bitwise (split x)
  where
    split :
        (x : ℕ)
        → bitwise (λ d. zero) min x y
          ≡ min (x % 2) (y % 2) + 2 * bitwise (λ d. zero) min (x / 2) (y / 2)
    split (suc x) = low_digit (λ d. zero) min x y
    split zero = omega arith

-- Digit `k` of a word, 0 or 1.
abbrev pub bit : ℕ → ℕ → ℕ
bit zero x = x % 2
bit (suc k) x = bit k (x / 2)

pub bit-lt : (k x : ℕ) → bit k x < 2
bit-lt zero x = omega arith
bit-lt (suc k) x = bit-lt k (x / 2)

pub bit-bit_or : (k a b : ℕ) → bit k (bit_or a b) ≡ max (bit k a) (bit k b)
bit-bit_or zero a b = omega (arith, bit_or_step a b)
bit-bit_or (suc k) a b =
    let halves : bit_or a b / 2 ≡ bit_or (a / 2) (b / 2) = omega (arith, bit_or_step a b) in
    rw halves (bit-bit_or k (a / 2) (b / 2))

pub bit-bit_and : (k a b : ℕ) → bit k (bit_and a b) ≡ min (bit k a) (bit k b)
bit-bit_and zero a b = omega (arith, bit_and_step a b)
bit-bit_and (suc k) a b =
    let halves : bit_and a b / 2 ≡ bit_and (a / 2) (b / 2) = omega (arith, bit_and_step a b) in
    rw halves (bit-bit_and k (a / 2) (b / 2))
