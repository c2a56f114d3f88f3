-- ===== src/Base/Trim.antt =====
-- `str::trim`, and the split of a text at its first character that is no digit.
use Prim.Native.Nat.{ℕ}
use mathlib.Core.Path.{◌≡◌, refl, ap, ◌∙◌}
use mathlib.Core.Bool.{Bool, false, ◌&&◌, ◌||◌}
use mathlib.Core.List.{[], ◌∷◌, ◌++◌}
use native.Mathlib.Omega.{arith}
use malleus_rtos.Base.Tests.{leb, ◌==◌, if◌then◌else◌}
use mathlib.Core.Logic.{inl, inr}
use malleus_rtos.Base.Lists.{All, List-cases}
use malleus_rtos.Base.Text.{Text}
use malleus_rtos.Base.Decimal.{is_digit, IsDigit}

-- `char::is_whitespace`: the code points with the Unicode property White_Space.
unfoldable pub is_whitespace : ℕ → Bool
is_whitespace c =
    (leb 9 c && leb c 13)
    || c == 0x20
    || c == 0x85
    || c == 0xa0
    || c == 0x1680
    || (leb 0x2000 c && leb c 0x200a)
    || c == 0x2028
    || c == 0x2029
    || c == 0x202f
    || c == 0x205f
    || c == 0x3000

unfoldable pub trim_start : Text → Text
unfolding is_whitespace
trim_start [] = []
trim_start (c ∷ s) = let rest = trim_start s in if is_whitespace c then rest else c ∷ s

unfoldable pub trim_end : Text → Text
unfolding is_whitespace
trim_end [] = []
trim_end (c ∷ s) = elim (trim_end s) [
  | [] ↦ if is_whitespace c then [] else c ∷ []
  | d ∷ t ↦ c ∷ d ∷ t
]

unfoldable pub trim : Text → Text
unfolding trim_start trim_end
trim s = trim_end (trim_start s)

-- The digits at the front of a text, and what follows them.
unfoldable pub digits_front : Text → Text
digits_front [] = []
digits_front (c ∷ s) = if is_digit c then c ∷ digits_front s else []

unfoldable pub digits_rest : Text → Text
digits_rest [] = []
digits_rest (c ∷ s) = if is_digit c then digits_rest s else c ∷ s

abbrev pub IsVisible : ℕ → Type 0
IsVisible c = is_whitespace c ≡ false

trim_start-visible : (s : Text) → All IsVisible s → trim_start s ≡ s
unfolding trim_start
trim_start-visible [] h = refl
trim_start-visible (c ∷ s) (h, hs) = rw h

-- A character ahead of a kept one is kept.
trim_end-cons :
    (c : ℕ) (s : Text) (d : ℕ) (t : Text) → trim_end s ≡ d ∷ t → trim_end (c ∷ s) ≡ c ∷ d ∷ t
unfolding trim_end
trim_end-cons c s d t e = rw (e, trim_end)

trim_end-visible : (s : Text) → All IsVisible s → trim_end s ≡ s
trim_end-visible [] h = unfold trim_end in refl
trim_end-visible (c ∷ []) (h, hs) = unfold trim_end in rw h
trim_end-visible (c ∷ d ∷ s) (h, hs) = trim_end-cons c (d ∷ s) d s (trim_end-visible (d ∷ s) hs)

-- Trimming leaves a text without whitespace as it is.
pub trim-visible : (s : Text) → All IsVisible s → trim s ≡ s
trim-visible s h =
    let parts : trim s ≡ trim_end (trim_start s) = unfold trim in refl in
    parts ∙ ap trim_end (trim_start-visible s h) ∙ trim_end-visible s h

pub digits_split : (s : Text) → digits_front s ++ digits_rest s ≡ s
unfolding digits_front digits_rest
digits_split [] = refl
digits_split (c ∷ s) = ground (arith, digits_split s)

pub digits_front-IsDigit : (s : Text) → All IsDigit (digits_front s)
unfolding digits_front
digits_front-IsDigit [] = tt
digits_front-IsDigit (c ∷ s) = ground (arith, digits_front-IsDigit s)

-- A text without digits at its front, or the empty text.
abbrev pub StartsUnit : Text → Type 0
StartsUnit [] = Unit
StartsUnit (c ∷ s) = is_digit c ≡ false

pub digits_front-append :
    (ds u : Text) → All IsDigit ds → StartsUnit u → digits_front (ds ++ u) ≡ ds
unfolding digits_front
digits_front-append [] [] h hu = refl
digits_front-append [] (c ∷ u) h hu = rw hu
digits_front-append (d ∷ ds) u (h, hs) hu = ground (arith, digits_front-append ds u hs hu)

pub digits_rest-append : (ds u : Text) → All IsDigit ds → StartsUnit u → digits_rest (ds ++ u) ≡ u
unfolding digits_rest
digits_rest-append [] [] h hu = refl
digits_rest-append [] (c ∷ u) h hu = rw hu
digits_rest-append (d ∷ ds) u (h, hs) hu = ground (arith, digits_rest-append ds u hs hu)

pub IsDigit-IsVisible : (c : ℕ) → IsDigit c → IsVisible c
unfolding is_whitespace
IsDigit-IsVisible c h = ground arith

-- A text that starts with a visible character still does when it is trimmed.
trim_end-head : (c : ℕ) (s : Text) → IsVisible c → (t : Text) × (trim_end (c ∷ s) ≡ c ∷ t)
trim_end-head c s h = elim (List-cases (trim_end s)) [
  | inl e ↦ ([], unfold trim_end in rw (e, h) refl)
  | inr (d, t, e) ↦ (d ∷ t, trim_end-cons c s d t e)
]

pub trim-head : (c : ℕ) (s : Text) → IsVisible c → (t : Text) × (trim (c ∷ s) ≡ c ∷ t)
unfolding trim trim_start
trim-head c s h = rw h (trim_end-head c s h)
