-- ===== src/Manifest/Units/Meaning.antt =====
-- What a written duration means, said without the parser's table of factors: each unit by how many
-- of it make a second.
use mathlib.Core.Path.{subst}
use malleus_rtos.Base.{
  ℕ, ◌*◌, ◌≤◌, ◌≡◌, ◌≢◌, ◌↔◌, ◌⊎◌, refl, sym, ap, ◌∙◌, arith, inl, inr, Bool-cases, false, some, [],
  ◌∷◌, ◌++◌, All, u64_max, checked_mul_u64,
}
use malleus_rtos.Base.Text.{Text, codes, text_eq, text_eq-eq}
use malleus_rtos.Base.Results.{ok}
use malleus_rtos.Base.Decimal.{is_digit, IsDigit, value_from, parse_decimal_complete}
use malleus_rtos.Base.Trim.{
  trim, trim-head, StartsUnit, digits_front-append, digits_rest-append, IsDigit-IsVisible,
}
use malleus_rtos.Manifest.Units.{
  split_digits, split_value_unit, Duration, parse_duration, duration_multiplier, second_nanos,
}
use malleus_rtos.Manifest.Units.Errors.{parse_duration_sound}
use malleus_rtos.Manifest.Units.RoundTrip.{split_value_unit_lem}

pub data TimeUnit : Type 0 where
  nanosecond microsecond millisecond second : TimeUnit

-- How many of a unit make a second.
abbrev pub per_second : TimeUnit → ℕ
per_second nanosecond = 1_000_000_000
per_second microsecond = 1_000_000
per_second millisecond = 1_000
per_second second = 1

abbrev pub IsSpelling : TimeUnit → Text → Type 0
IsSpelling nanosecond u = u ≡ codes "ns"
IsSpelling microsecond u = (u ≡ codes "us") ⊎ (u ≡ codes "µs")
IsSpelling millisecond u = u ≡ codes "ms"
IsSpelling second u = u ≡ codes "s"

-- A text that says how long `d` is: trimmed, it is one or more digits and then, with or without
-- space between them, a spelling of a unit; and `d` is that many of the unit and fits 64 bits.
pub record Denotes (s : Text) (d : Duration) : Type 0 where
  pub number : Text
  pub suffix : Text
  pub unit : TimeUnit
  pub text : trim s ≡ number ++ suffix
  pub digits : All IsDigit number
  pub some_digit : number ≢ []
  pub spelling : IsSpelling unit (trim suffix)
  pub worth : d.nanos * per_second unit ≡ value_from 0 number * second_nanos
  pub in_range : d.nanos ≤ u64_max

-- The factor that the parser takes for a unit.
abbrev factor : TimeUnit → ℕ
factor nanosecond = 1
factor microsecond = 1_000
factor millisecond = 1_000_000
factor second = 1_000_000_000

duration_multiplier-spelling :
    (t : TimeUnit) (u : Text) → IsSpelling t u → duration_multiplier u ≡ some (factor t)
unfolding duration_multiplier
duration_multiplier-spelling nanosecond u e = rw e refl
duration_multiplier-spelling microsecond u (inl e) = rw e refl
duration_multiplier-spelling microsecond u (inr e) = rw e refl
duration_multiplier-spelling millisecond u e = rw e refl
duration_multiplier-spelling second u e = rw e refl

duration_multiplier_sound :
    (u : Text) (m : ℕ)
    → duration_multiplier u ≡ some m
    → (t : TimeUnit) × IsSpelling t u × (m ≡ factor t)
unfolding duration_multiplier
duration_multiplier_sound u m h = elim (Bool-cases (text_eq u (codes "ns"))) [
  | inl e ↦ (nanosecond, text_eq-eq u _ e, ground arith)
  | inr ns ↦ elim (Bool-cases (text_eq u (codes "us"))) [
    | inl e ↦ (microsecond, inl (text_eq-eq u _ e), ground arith)
    | inr us ↦ elim (Bool-cases (text_eq u (codes "µs"))) [
      | inl e ↦ (microsecond, inr (text_eq-eq u _ e), ground arith)
      | inr µs ↦ elim (Bool-cases (text_eq u (codes "ms"))) [
        | inl e ↦ (millisecond, text_eq-eq u _ e, ground arith)
        | inr ms ↦ elim (Bool-cases (text_eq u (codes "s"))) [
          | inl e ↦ (second, text_eq-eq u _ e, ground arith)
          | inr s ↦ absurd (ground arith)
        ]
      ]
    ]
  ]
]

worth-factor : (t : TimeUnit) (n v : ℕ) → (n * per_second t ≡ v * second_nanos) ↔ (n ≡ v * factor t)
worth-factor nanosecond n v = ((λ h. omega arith), (λ h. omega arith))
worth-factor microsecond n v = ((λ h. omega arith), (λ h. omega arith))
worth-factor millisecond n v = ((λ h. omega arith), (λ h. omega arith))
worth-factor second n v = ((λ h. omega arith), (λ h. omega arith))

-- A spelling is not empty and starts with no digit; so the digits of a text end where its unit, or
-- the space before it, starts.
abbrev StartsSpelling : Text → Type 0
StartsSpelling [] = ⊥
StartsSpelling (c ∷ u) = is_digit c ≡ false

IsSpelling-starts : (t : TimeUnit) (u : Text) → IsSpelling t u → StartsSpelling u
IsSpelling-starts nanosecond u e = subst StartsSpelling (sym e) refl
IsSpelling-starts microsecond u (inl e) = subst StartsSpelling (sym e) refl
IsSpelling-starts microsecond u (inr e) = subst StartsSpelling (sym e) refl
IsSpelling-starts millisecond u e = subst StartsSpelling (sym e) refl
IsSpelling-starts second u e = subst StartsSpelling (sym e) refl

suffix_starts : (suffix : Text) → StartsSpelling (trim suffix) → StartsSpelling suffix
suffix_starts [] h = unfold trim in h
suffix_starts (c ∷ u) h = elim (Bool-cases (is_digit c)) [
  | inl digit ↦
      let (t, e) = trim-head c u (IsDigit-IsVisible c (ground arith)) in subst StartsSpelling e h
  | inr e ↦ e
]

split_digits_complete :
    (whole ds suffix : Text)
    → ds ≢ []
    → StartsSpelling suffix
    → value_from 0 ds ≤ u64_max
    → split_digits whole ds suffix ≡ ok (record { value = value_from 0 ds; unit = trim suffix })
unfolding split_digits
split_digits_complete whole ds [] ne h fits = absurd h
split_digits_complete whole [] (c ∷ u) ne h fits = absurd (ne refl)
split_digits_complete whole (d ∷ ds) (c ∷ u) ne h fits =
    rw (parse_decimal_complete (d ∷ ds) ne fits) refl

digits_end : (suffix : Text) → StartsSpelling suffix → StartsUnit suffix
digits_end [] h = tt
digits_end (c ∷ u) h = h

split_value_unit_complete :
    (s number suffix : Text)
    → trim s ≡ number ++ suffix
    → All IsDigit number
    → number ≢ []
    → StartsSpelling suffix
    → value_from 0 number ≤ u64_max
    → split_value_unit s ≡ ok (record { value = value_from 0 number; unit = trim suffix })
split_value_unit_complete s number suffix e digits some_digit starts fits =
    let ends = digits_end suffix starts in
    split_value_unit_lem s
    ∙ rw
        (
          e,
          digits_front-append number suffix digits ends,
          digits_rest-append number suffix digits ends,
        )
        (split_digits_complete _ number suffix some_digit starts fits)

factor-above : (t : TimeUnit) (v : ℕ) → v ≤ v * factor t
factor-above nanosecond v = omega arith
factor-above microsecond v = omega arith
factor-above millisecond v = omega arith
factor-above second v = omega arith

checked_mul_complete : (a b c : ℕ) → c ≡ a * b → c ≤ u64_max → checked_mul_u64 a b ≡ some c
checked_mul_complete a b c e fits = ground arith

parse_duration_complete : (s : Text) (d : Duration) → Denotes s d → parse_duration s ≡ ok d
unfolding parse_duration
parse_duration_complete s d w =
    let v = value_from 0 w.number in
    let product = (worth-factor w.unit d.nanos v).0 w.worth in
    let fits : v ≤ u64_max = omega (arith, factor-above w.unit v, product, w.in_range) in
    let starts = suffix_starts w.suffix (IsSpelling-starts w.unit _ w.spelling) in
    rw
      (
        split_value_unit_complete s w.number w.suffix w.text w.digits w.some_digit starts fits,
        duration_multiplier-spelling w.unit _ w.spelling,
        checked_mul_complete v (factor w.unit) d.nanos product w.in_range,
      )
      refl

-- A duration is accepted exactly where its text says how long it is: the trimmed text is one or
-- more decimal digits and then, with or without space between them, one of the spellings `ns`,
-- `us`, `µs`, `ms` and `s`; the duration is exactly that many of the unit, where a second is
-- 1,000,000,000, 1,000,000, 1,000 and 1 of them; and it fits 64 bits.
pub parse_duration-Denotes : (s : Text) (d : Duration) → (parse_duration s ≡ ok d) ↔ Denotes s d
parse_duration-Denotes s d = (
  (λ h.
      let (v, m, split, unit, product, fits) = parse_duration_sound s d h in
      let (t, spelling, scale) = duration_multiplier_sound v.unit m unit in
      record {
        number = split.number;
        suffix = split.suffix;
        unit = t;
        text = split.text;
        digits = split.digits;
        some_digit = split.some_digit;
        spelling = subst (IsSpelling t) split.unit spelling;
        worth = (worth-factor t d.nanos (value_from 0 split.number)).1 (
            product
            ∙ ap (λ (n : ℕ). n * m) split.value
            ∙ ap (λ (n : ℕ). value_from 0 split.number * n) scale);
        in_range = fits;
      }),
  parse_duration_complete s d,
)
