-- ===== src/Base/Masks.antt =====
-- Words with one bit set, the complement of a word, and equality of words by their bits.
use Prim.Native.Nat.{ℕ, zero, suc, ◌-◌, ◌*◌, ◌/◌, ◌%◌, ◌^◌, ◌≤◌, ◌<◌}
use Prim.Native.Nat.{bit_and, bit_or, bit_and-bitwise}
use mathlib.Core.Path.{◌≡◌, refl}
use native.Mathlib.Decide.{dec_lt}
use native.Mathlib.Nat.{pow-suc}
use malleus_rtos.Base.Word.{powers}
use native.Mathlib.Omega.{arith}
use malleus_rtos.Base.Tests.{◌==◌, if◌then◌else◌}
use malleus_rtos.Base.Bits.{bit, bit_or_step, bit_and_step}

-- `!x` on a word of `n` bits.
abbrev pub complement : ℕ → ℕ → ℕ
complement n x = 2 ^ n - 1 - x

bit_and-zero_below : (bound x : ℕ) → x ≤ bound → bit_and x 0 ≡ 0
bit_and-zero_below zero zero h = refl
bit_and-zero_below zero (suc x) h = absurd (omega arith)
bit_and-zero_below (suc bound) x h = elim (dec_lt 0 x) [
  | yes more ↦ omega (arith, bit_and_step x 0, bit_and-zero_below bound (x / 2) (omega arith))
  | no none_left ↦ bit_and-zero_below bound x (omega arith)
]

bit_and-zero : (x : ℕ) → bit_and x 0 ≡ 0
bit_and-zero x = bit_and-zero_below x x (omega arith)

pow_half : (k : ℕ) → 2 ^ suc k / 2 ≡ 2 ^ k
pow_half k = omega powers

pow_even : (k : ℕ) → 2 ^ suc k % 2 ≡ 0
pow_even k = omega powers

pub bit_and-pow : (k x : ℕ) → bit_and x (2 ^ k) ≡ bit k x * 2 ^ k
bit_and-pow zero x = omega (arith, bit_and_step x 1, bit_and-zero (x / 2))
bit_and-pow (suc k) x =
    let ih = bit_and-pow k (x / 2) in
    let step : bit_and x (2 ^ suc k) ≡ bit_and (x / 2) (2 ^ k) * 2 =
      rw (bit_and_step x (2 ^ suc k), pow_half k, pow_even k) (omega arith) in
    rw (step, ih, pow-suc 2 k) (omega arith)

pub bit-zero : (k : ℕ) → bit k 0 ≡ 0
bit-zero zero = refl
bit-zero (suc k) = bit-zero k

pub bit-pow : (j k : ℕ) → bit j (2 ^ k) ≡ (if j == k then 1 else 0)
bit-pow zero zero = refl
bit-pow zero (suc k) = rw (pow_even k) (ground arith)
bit-pow (suc j) zero = rw (bit-zero j) (ground arith)
bit-pow (suc j) (suc k) = rw (pow_half k, bit-pow j k) (ground arith)

pub bit-complement : (j n x : ℕ) → j < n → x < 2 ^ n → bit j (complement n x) ≡ 1 - bit j x
bit-complement j zero x h b = absurd (omega arith)
bit-complement zero (suc n) x h b = omega powers
bit-complement (suc j) (suc n) x h b =
    let half : complement (suc n) x / 2 ≡ complement n (x / 2) = omega powers in
    rw half (bit-complement j n (x / 2) (omega arith) (omega powers))

pub bit_or-lt : (n a b : ℕ) → a < 2 ^ n → b < 2 ^ n → bit_or a b < 2 ^ n
bit_or-lt zero zero zero ha hb = omega arith
bit_or-lt zero zero (suc b) ha hb = absurd (omega arith)
bit_or-lt zero (suc a) b ha hb = absurd (omega arith)
bit_or-lt (suc n) a b ha hb =
    omega (
      arith,
      bit_or_step a b,
      pow-suc 2 n,
      bit_or-lt n (a / 2) (b / 2) (omega powers) (omega powers),
    )

pub bit_and-le : (n a b : ℕ) → a < 2 ^ n → bit_and a b ≤ a
bit_and-le zero zero b h = omega (arith, bit_and-bitwise 0 b)
bit_and-le zero (suc a) b h = absurd (omega arith)
bit_and-le (suc n) a b h =
    omega (arith, bit_and_step a b, bit_and-le n (a / 2) (b / 2) (omega powers))

-- Words of `n` bits that agree on every bit are equal.
pub word_ext : (n x y : ℕ) → x < 2 ^ n → y < 2 ^ n → ((j : ℕ) → j < n → bit j x ≡ bit j y) → x ≡ y
word_ext zero x y hx hy h = omega arith
word_ext (suc n) x y hx hy h =
    let halves =
      word_ext n (x / 2) (y / 2) (omega powers) (omega powers) (λ j b. h (suc j) (omega arith)) in
    omega (arith, h 0 (omega arith))

-- A set bit is within the word, and the word reaches it.
pub bit-one-le : (j x : ℕ) → bit j x ≡ 1 → 2 ^ j ≤ x
bit-one-le zero x h = omega arith
bit-one-le (suc j) x h = omega (powers, bit-one-le j (x / 2) h)

-- Between a power of two and its double, the top bit is set.
pub bit_top : (j x : ℕ) → 2 ^ j ≤ x → x < 2 ^ suc j → bit j x ≡ 1
bit_top zero x lo hi = omega arith
bit_top (suc j) x lo hi = bit_top j (x / 2) (omega powers) (omega powers)
