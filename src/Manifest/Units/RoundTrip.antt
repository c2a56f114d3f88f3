-- ===== src/Manifest/Units/RoundTrip.antt =====
-- A duration or a size is read back from its display.
use malleus_rtos.Base.{
  ℕ, ◌*◌, ◌/◌, ◌%◌, ◌≤◌, ◌≡◌, ◌≢◌, refl, ap, ◌∙◌, arith, inl, inr, false, ◌&&◌, ◌==◌, leb, le→ltb,
  Bool-cases, some, [], ◌∷◌, ◌++◌, All, All-append, u64_max,
}
use malleus_rtos.Base.Text.{Text, codes}
use malleus_rtos.Base.Results.{ok, ◌>>=◌, ok_or}
use malleus_rtos.Base.Decimal.{
  is_digit, IsDigit, print_decimal, parse_decimal, print_decimal-ne-nil, print_decimal-IsDigit,
  parse-print_decimal,
}
use malleus_rtos.Base.Trim.{
  trim, IsVisible, trim-visible, digits_front, digits_rest, digits_front-append, digits_rest-append,
  IsDigit-IsVisible, is_whitespace,
}
use malleus_rtos.Manifest.Units.{
  ParseUnitError, split_digits, split_value_unit, Duration, parse_duration, display_duration,
  duration_multiplier, ByteSize, parse_size, display_size, size_multiplier,
}

-- A unit as it is printed: visible characters, the first of which is no digit.
abbrev IsUnit : Text → Type 0
IsUnit [] = ⊥
IsUnit (c ∷ u) = (is_digit c ≡ false) × All IsVisible (c ∷ u)

digits-IsVisible : (ds : Text) → All IsDigit ds → All IsVisible ds
digits-IsVisible [] h = tt
digits-IsVisible (d ∷ ds) (h, hs) = (IsDigit-IsVisible d h, digits-IsVisible ds hs)

split_digits-print :
    (whole ds : Text) (k c : ℕ) (u : Text)
    → ds ≢ []
    → parse_decimal ds ≡ some k
    → All IsVisible (c ∷ u)
    → split_digits whole ds (c ∷ u) ≡ ok (record { value = k; unit = c ∷ u })
split_digits-print whole [] k c u ne e h = absurd (ne refl)
split_digits-print whole (d ∷ ds) k c u ne e h =
    let body : split_digits whole (d ∷ ds) (c ∷ u) ≡ (
        ok_or (parse_decimal (d ∷ ds)) (ParseUnitError.overflow whole) >>= λ v.
        ok (record { value = v; unit = trim (c ∷ u) })) =
      unfold split_digits in refl in
    body ∙ rw (e, trim-visible (c ∷ u) h)

pub split_value_unit_lem :
    (s : Text)
    → split_value_unit s ≡ split_digits (trim s) (digits_front (trim s)) (digits_rest (trim s))
unfolding split_value_unit
split_value_unit_lem s = refl

split_value_unit-print :
    (k : ℕ) (u : Text)
    → k ≤ u64_max
    → IsUnit u
    → split_value_unit (print_decimal k ++ u) ≡ ok (record { value = k; unit = u })
split_value_unit-print k [] fits h = absurd h
split_value_unit-print k (c ∷ u) fits (nodigit, visible) =
    let ds = print_decimal k in
    let digits = print_decimal-IsDigit k in
    let s = ds ++ c ∷ u in
    let same : trim s ≡ s =
      trim-visible s (All-append IsVisible ds (c ∷ u) (digits-IsVisible ds digits) visible) in
    split_value_unit_lem s
    ∙ rw
        (
          same,
          digits_front-append ds (c ∷ u) digits nodigit,
          digits_rest-append ds (c ∷ u) digits nodigit,
        )
        (split_digits-print s ds k c u (print_decimal-ne-nil k) (parse-print_decimal k fits)
          visible)

-- The two parsers, on a number printed ahead of its unit.
parse_duration-print :
    (k m : ℕ) (u : Text)
    → k * m ≤ u64_max
    → k ≤ u64_max
    → IsUnit u
    → duration_multiplier u ≡ some m
    → parse_duration (print_decimal k ++ u) ≡ ok (record { nanos = k * m })
unfolding parse_duration
parse_duration-print k m u fits word h e =
    rw (split_value_unit-print k u word h, e, le→ltb (k * m) u64_max fits)

parse_size-print :
    (k m : ℕ) (u : Text)
    → k * m ≤ u64_max
    → k ≤ u64_max
    → IsUnit u
    → size_multiplier u ≡ some m
    → parse_size (print_decimal k ++ u) ≡ ok (record { bytes = k * m })
unfolding parse_size
parse_size-print k m u fits word h e =
    rw (split_value_unit-print k u word h, e, le→ltb (k * m) u64_max fits)

IsUnit-s : IsUnit (codes "s")
unfolding is_whitespace
IsUnit-s = (refl, (refl, tt))

IsUnit-ms : IsUnit (codes "ms")
unfolding is_whitespace
IsUnit-ms = (refl, (refl, (refl, tt)))

IsUnit-us : IsUnit (codes "us")
unfolding is_whitespace
IsUnit-us = (refl, (refl, (refl, tt)))

IsUnit-ns : IsUnit (codes "ns")
unfolding is_whitespace
IsUnit-ns = (refl, (refl, (refl, tt)))

-- A printed quotient that loses nothing is read back as the whole.
duration_of :
    (n q m : ℕ) (u : Text)
    → n ≤ u64_max
    → q * m ≡ n
    → q ≤ n
    → IsUnit u
    → duration_multiplier u ≡ some m
    → parse_duration (print_decimal q ++ u) ≡ ok (record { nanos = n })
duration_of n q m u fits e le h hm =
    parse_duration-print q m u (omega arith) (omega arith) h hm
    ∙ ap (λ x. ok (record { nanos = x })) e

-- The display of every 64-bit duration parses back to that duration.
pub parse-display_duration :
    (d : Duration) → d.nanos ≤ u64_max → parse_duration (display_duration d) ≡ ok d
unfolding display_duration
parse-display_duration d fits = elim (Bool-cases (leb 1_000_000_000 n && n % 1_000_000_000 == 0)) [
  | inl e ↦ rw e (
      duration_of n (n / 1_000_000_000) 1_000_000_000 (codes "s") fits (ground arith) (omega arith)
        IsUnit-s (unfold duration_multiplier in refl))
  | inr e ↦ rw e (elim (Bool-cases (leb 1_000_000 n && n % 1_000_000 == 0)) [
    | inl e' ↦ rw e' (
        duration_of n (n / 1_000_000) 1_000_000 (codes "ms") fits (ground arith) (omega arith)
          IsUnit-ms (unfold duration_multiplier in refl))
    | inr e' ↦ rw e' (elim (Bool-cases (leb 1_000 n && n % 1_000 == 0)) [
      | inl e'' ↦ rw e'' (
          duration_of n (n / 1_000) 1_000 (codes "us") fits (ground arith) (omega arith) IsUnit-us
            (unfold duration_multiplier in refl))
      | inr e'' ↦ rw e'' (
          duration_of n n 1 (codes "ns") fits (omega arith) (omega arith) IsUnit-ns
            (unfold duration_multiplier in refl))
    ])
  ])
]
  where
    n : ℕ
    n = d.nanos

IsUnit-b : IsUnit (codes "B")
unfolding is_whitespace
IsUnit-b = (refl, (refl, tt))

IsUnit-kib : IsUnit (codes "KiB")
unfolding is_whitespace
IsUnit-kib = (refl, (refl, (refl, (refl, tt))))

IsUnit-mib : IsUnit (codes "MiB")
unfolding is_whitespace
IsUnit-mib = (refl, (refl, (refl, (refl, tt))))

size_of :
    (n q m : ℕ) (u : Text)
    → n ≤ u64_max
    → q * m ≡ n
    → q ≤ n
    → IsUnit u
    → size_multiplier u ≡ some m
    → parse_size (print_decimal q ++ u) ≡ ok (record { bytes = n })
size_of n q m u fits e le h hm =
    parse_size-print q m u (omega arith) (omega arith) h hm ∙ ap (λ x. ok (record { bytes = x })) e

-- The display of every 64-bit size parses back to that size.
pub parse-display_size : (b : ByteSize) → b.bytes ≤ u64_max → parse_size (display_size b) ≡ ok b
unfolding display_size
parse-display_size b fits = elim (Bool-cases (leb (1024 * 1024) n && n % (1024 * 1024) == 0)) [
  | inl e ↦ rw e (
      size_of n (n / (1024 * 1024)) (1024 * 1024) (codes "MiB") fits (ground arith) (omega arith)
        IsUnit-mib (unfold size_multiplier in refl))
  | inr e ↦ rw e (elim (Bool-cases (leb 1024 n && n % 1024 == 0)) [
    | inl e' ↦ rw e' (
        size_of n (n / 1024) 1024 (codes "KiB") fits (ground arith) (omega arith) IsUnit-kib
          (unfold size_multiplier in refl))
    | inr e' ↦ rw e' (
        size_of n n 1 (codes "B") fits (omega arith) (omega arith) IsUnit-b
          (unfold size_multiplier in refl))
  ])
]
  where
    n : ℕ
    n = b.bytes
