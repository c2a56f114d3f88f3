-- ===== src/Manifest/Units/Errors.antt =====
-- What the parsers accept and refuse: a text of a value, without overflow, and an explicit unit.
use mathlib.Core.List.{cons-ne-nil}
use malleus_rtos.Base.{
  ℕ, ◌*◌, ◌≤◌, ◌≡◌, ◌≢◌, refl, sym, ap, ◌∙◌, arith, inl, inr, Option-cases, some, [], ◌∷◌, ◌++◌,
  All, u64_max, checked_mul_u64,
}
use malleus_rtos.Base.Text.{Text}
use malleus_rtos.Base.Results.{ok, err, ok_or, >>=-eq-ok, ok_or-eq-ok}
use malleus_rtos.Base.Decimal.{IsDigit, parse_decimal, parse_decimal_sound, value_from}
use malleus_rtos.Base.Trim.{trim, digits_front, digits_rest, digits_split, digits_front-IsDigit}
use malleus_rtos.Manifest.Units.{
  missing_unit, ValueUnit, split_digits, split_value_unit, Duration, parse_duration,
  duration_multiplier, ByteSize, parse_size, size_multiplier,
}
use malleus_rtos.Manifest.Units.RoundTrip.{split_value_unit_lem}

-- An accepted value and unit: the trimmed text is one or more digits that spell the value, and
-- then the unit, with whitespace around it.
pub record IsSplit (s : Text) (v : ValueUnit) : Type 0 where
  pub number : Text
  pub suffix : Text
  pub text : trim s ≡ number ++ suffix
  pub digits : All IsDigit number
  pub some_digit : number ≢ []
  pub some_suffix : suffix ≢ []
  pub value : v.value ≡ value_from 0 number
  pub in_range : v.value ≤ u64_max
  pub unit : v.unit ≡ trim suffix

split_digits_sound :
    (whole ds u : Text) (v : ValueUnit)
    → split_digits whole ds u ≡ ok v
    → (ds ≢ []) × (u ≢ []) × (parse_decimal ds ≡ some v.value) × (v.unit ≡ trim u)
unfolding split_digits
split_digits_sound whole ds [] v h = absurd (cc)
split_digits_sound whole [] (c ∷ u) v h = absurd (cc)
split_digits_sound whole (d ∷ ds) (c ∷ u) v h = elim (Option-cases (parse_decimal (d ∷ ds))) [
  | inl e ↦ absurd (ground arith)
  | inr (k, e) ↦ (cons-ne-nil d ds, cons-ne-nil c u, ground arith, ground arith)
]

-- Whatever is split off is a true value behind digits only, with a unit after it.
pub split_value_unit_sound : (s : Text) (v : ValueUnit) → split_value_unit s ≡ ok v → IsSplit s v
split_value_unit_sound s v h =
    let trimmed = trim s in
    let (some_digit, some_suffix, parsed, unit) =
      split_digits_sound trimmed (digits_front trimmed) (digits_rest trimmed) v
        (sym (split_value_unit_lem s) ∙ h) in
    let (value, in_range) = parse_decimal_sound (digits_front trimmed) v.value parsed in
    record {
      number = digits_front trimmed;
      suffix = digits_rest trimmed;
      text = sym (digits_split trimmed);
      digits = digits_front-IsDigit trimmed;
      some_digit = some_digit;
      some_suffix = some_suffix;
      value = value;
      in_range = in_range;
      unit = unit;
    }

digits_rest-All : (s : Text) → All IsDigit s → digits_rest s ≡ []
unfolding digits_rest
digits_rest-All [] h = refl
digits_rest-All (c ∷ s) (h, hs) = ground (arith, digits_rest-All s hs)

split_value_unit-digits :
    (s : Text) → All IsDigit (trim s) → split_value_unit s ≡ err (missing_unit (trim s))
split_value_unit-digits s h =
    split_value_unit_lem s
    ∙ ap (split_digits (trim s) (digits_front (trim s))) (digits_rest-All (trim s) h)
    ∙ unfold split_digits in refl

-- A text that is digits only after trimming has no unit, and both parsers say so: there is no unit
-- that they assume.
pub unit_required :
    (s : Text)
    → All IsDigit (trim s)
    → (parse_duration s ≡ err (missing_unit (trim s)))
      × (parse_size s ≡ err (missing_unit (trim s)))
unfolding parse_duration parse_size
unit_required s h = (rw (split_value_unit-digits s h), rw (split_value_unit-digits s h))

checked_mul_sound : (a b c : ℕ) → checked_mul_u64 a b ≡ some c → (c ≡ a * b) × (c ≤ u64_max)
checked_mul_sound a b c h = ground arith

-- What an accepted duration means: the text splits into a value and a known unit, and the result is
-- their exact product, which fits 64 bits.
pub parse_duration_sound :
    (s : Text) (d : Duration)
    → parse_duration s ≡ ok d
    → (v : ValueUnit) × (m : ℕ) × IsSplit s v
      × (duration_multiplier v.unit ≡ some m)
      × (d.nanos ≡ v.value * m)
      × (d.nanos ≤ u64_max)
unfolding parse_duration
parse_duration_sound s d h =
    let (v, split, h') = >>=-eq-ok (split_value_unit s) _ h in
    let (m, unit, h'') = >>=-eq-ok (ok_or (duration_multiplier v.unit) _) _ h' in
    let (n, product, last) = >>=-eq-ok (ok_or (checked_mul_u64 v.value m) _) _ h'' in
    let (exact, fits) = checked_mul_sound v.value m n (ok_or-eq-ok _ _ product) in
    (v, m, split_value_unit_sound s v split, ok_or-eq-ok _ _ unit, ground arith, ground arith)

-- What an accepted size means: the text splits into a value and a known unit, and the result is
-- their exact product, which fits 64 bits.
pub parse_size_sound :
    (s : Text) (b : ByteSize)
    → parse_size s ≡ ok b
    → (v : ValueUnit) × (m : ℕ) × IsSplit s v
      × (size_multiplier v.unit ≡ some m)
      × (b.bytes ≡ v.value * m)
      × (b.bytes ≤ u64_max)
unfolding parse_size
parse_size_sound s b h =
    let (v, split, h') = >>=-eq-ok (split_value_unit s) _ h in
    let (m, unit, h'') = >>=-eq-ok (ok_or (size_multiplier v.unit) _) _ h' in
    let (n, product, last) = >>=-eq-ok (ok_or (checked_mul_u64 v.value m) _) _ h'' in
    let (exact, fits) = checked_mul_sound v.value m n (ok_or-eq-ok _ _ product) in
    (v, m, split_value_unit_sound s v split, ok_or-eq-ok _ _ unit, ground arith, ground arith)
