-- ===== src/Base/Decimal.antt =====
-- Decimal numbers as the standard library prints and parses them for `u64`.
use Prim.Native.Nat.{ℕ, zero, suc, ◌+◌, ◌-◌, ◌*◌, ◌/◌, ◌%◌, ◌^◌, ◌≤◌, ◌<◌}
use mathlib.Core.Path.{◌≡◌, refl, sym, ap, ◌∙◌}
use mathlib.Core.Logic.{◌≢◌, inl, inr}
use mathlib.Core.Bool.{Bool, ◌&&◌}
use mathlib.Core.List.{[], ◌∷◌, cons-ne-nil}
use mathlib.Core.Option.{Option, none, some}
use malleus_rtos.Base.Word.{powers}
use native.Mathlib.Omega.{arith}
use malleus_rtos.Base.Tests.{ltb, leb, ◌==◌, if◌then◌else◌, Bool-cases}
use malleus_rtos.Base.Lists.{All}
use malleus_rtos.Base.Word.{u64_max}
use malleus_rtos.Base.Text.{Text}

-- `is_ascii_digit`.
abbrev pub is_digit : ℕ → Bool
is_digit c = leb b'0' c && leb c b'9'

abbrev pub IsDigit : ℕ → Type 0
IsDigit c = (b'0' ≤ c) × (c ≤ b'9')

-- The digits of `n` ahead of `out`, with room for as many as the fuel.
unfoldable pub print_digits : ℕ → ℕ → Text → Text
print_digits zero n out = out
print_digits (suc fuel) n out =
    let rest = print_digits fuel (n / 10) ((b'0' + n % 10) ∷ out) in
    if n / 10 == 0 then (b'0' + n % 10) ∷ out else rest

-- A `u64` has at most 20 digits.
unfoldable pub print_decimal : ℕ → Text
unfolding print_digits
print_decimal n = print_digits 20 n []

-- The loop of `u64::from_str` over a text of digits; `none` where a step overflows.
unfoldable pub scan_decimal : Text → ℕ → Option ℕ
scan_decimal [] n = some n
scan_decimal (c ∷ s) n =
    let m = n * 10 + (c - b'0') in if ltb u64_max m then none else scan_decimal s m

-- `parse::<u64>` on a text of digits.
unfoldable pub parse_decimal : Text → Option ℕ
unfolding scan_decimal
parse_decimal [] = none
parse_decimal (c ∷ s) = scan_decimal (c ∷ s) 0

scan_last :
    (n : ℕ) (out : Text)
    → n ≤ u64_max
    → scan_decimal ((b'0' + n % 10) ∷ out) (n / 10) ≡ scan_decimal out n
unfolding scan_decimal
scan_last n out h = ground arith

scan-print_digits :
    (fuel n : ℕ) (out : Text)
    → n < 10 ^ fuel
    → n ≤ u64_max
    → scan_decimal (print_digits fuel n out) 0 ≡ scan_decimal out n
unfolding print_digits
scan-print_digits zero n out room fits = let e : n ≡ 0 = omega arith in rw e
scan-print_digits (suc fuel) n out room fits = elim (Bool-cases (n / 10 == 0)) [
  | inl last ↦
      let e : n / 10 ≡ 0 = ground arith in
      rw last (ap (scan_decimal ((b'0' + n % 10) ∷ out)) (sym e) ∙ scan_last n out fits)
  | inr more ↦
      rw more
        (scan-print_digits fuel (n / 10) _ (omega powers) (omega arith) ∙ scan_last n out fits)
]

print_digits-ne-nil : (fuel n : ℕ) (out : Text) → out ≢ [] → print_digits fuel n out ≢ []
unfolding print_digits
print_digits-ne-nil zero n out ne = ne
print_digits-ne-nil (suc fuel) n out ne = elim (Bool-cases (n / 10 == 0)) [
  | inl last ↦ rw last (cons-ne-nil _ _)
  | inr more ↦ rw more (print_digits-ne-nil fuel (n / 10) _ (cons-ne-nil _ _))
]

print_digits-IsDigit :
    (fuel n : ℕ) (out : Text) → All IsDigit out → All IsDigit (print_digits fuel n out)
unfolding print_digits
print_digits-IsDigit zero n out h = h
print_digits-IsDigit (suc fuel) n out h = elim (Bool-cases (n / 10 == 0)) [
  | inl last ↦ rw last (omega arith, h)
  | inr more ↦ rw more (print_digits-IsDigit fuel (n / 10) _ (omega arith, h))
]

pub print_decimal-ne-nil : (n : ℕ) → print_decimal n ≢ []
unfolding print_decimal
print_decimal-ne-nil n = elim (Bool-cases (n / 10 == 0)) [
  | inl last ↦ rw last (cons-ne-nil _ _)
  | inr more ↦ rw more (print_digits-ne-nil 19 (n / 10) _ (cons-ne-nil _ _))
]

pub print_decimal-IsDigit : (n : ℕ) → All IsDigit (print_decimal n)
print_decimal-IsDigit n = unfold print_decimal in print_digits-IsDigit 20 n [] tt

parse-scan : (s : Text) → s ≢ [] → parse_decimal s ≡ scan_decimal s 0
unfolding parse_decimal
parse-scan [] h = absurd (h refl)
parse-scan (c ∷ s) h = refl

-- Every `u64` is read back from its decimal print.
pub parse-print_decimal : (n : ℕ) → n ≤ u64_max → parse_decimal (print_decimal n) ≡ some n
parse-print_decimal n h =
    parse-scan _ (print_decimal-ne-nil n)
    ∙ unfold print_decimal in
      scan-print_digits 20 n [] (omega arith) h ∙ unfold scan_decimal in refl

-- The number that digits spell behind `n`, with no bound.
abbrev pub value_from : ℕ → Text → ℕ
value_from n [] = n
value_from n (c ∷ s) = value_from (n * 10 + (c - b'0')) s

scan_sound :
    (s : Text) (n r : ℕ)
    → n ≤ u64_max
    → scan_decimal s n ≡ some r
    → (r ≡ value_from n s) × (r ≤ u64_max)
unfolding scan_decimal
scan_sound [] n r fits h = ground arith
scan_sound (c ∷ s) n r fits h = ground (arith, scan_sound s (n * 10 + (c - b'0')) r)

-- A parsed number is the true value of its digits: nothing wrapped around.
pub parse_decimal_sound :
    (s : Text) (r : ℕ) → parse_decimal s ≡ some r → (r ≡ value_from 0 s) × (r ≤ u64_max)
unfolding parse_decimal
parse_decimal_sound [] r h = cc
parse_decimal_sound (c ∷ s) r h = scan_sound (c ∷ s) 0 r (omega arith) h

value_from-above : (s : Text) (n : ℕ) → n ≤ value_from n s
value_from-above [] n = omega arith
value_from-above (c ∷ s) n = omega (arith, value_from-above s (n * 10 + (c - b'0')))

scan_complete :
    (s : Text) (n : ℕ) → value_from n s ≤ u64_max → scan_decimal s n ≡ some (value_from n s)
unfolding scan_decimal
scan_complete [] n h = refl
scan_complete (c ∷ s) n h =
    let m = n * 10 + (c - b'0') in ground (arith, scan_complete s m h, value_from-above s m)

-- A number is refused only where it is too large.
pub parse_decimal_complete :
    (s : Text) → s ≢ [] → value_from 0 s ≤ u64_max → parse_decimal s ≡ some (value_from 0 s)
parse_decimal_complete s some_digit h = parse-scan s some_digit ∙ scan_complete s 0 h
