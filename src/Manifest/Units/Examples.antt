-- ===== src/Manifest/Units/Examples.antt =====
-- Tests and instances of the theorems on durations and sizes.
use malleus_rtos.Base.{ℕ, ◌*◌, ◌/◌, ◌≡◌, ◌≢◌, ◌↔◌, min, refl, arith, true, some, All, u64_max}
use malleus_rtos.Base.{div_ceil}
use malleus_rtos.Base.Text.{Text, codes, text_eq}
use malleus_rtos.Base.Results.{ok, err}
use malleus_rtos.Base.Decimal.{IsDigit, parse_decimal}
use malleus_rtos.Base.Trim.{is_whitespace, trim, trim_start, trim_end, digits_front, digits_rest}
use malleus_rtos.Manifest.Units.{
  Duration, ByteSize, missing_number, split_digits, split_value_unit, second_nanos, to_ticks,
  is_tick_aligned, duration_multiplier, parse_duration, display_duration, size_multiplier,
  parse_size,
}
use malleus_rtos.Manifest.Units.RoundTrip.{parse-display_duration}
use malleus_rtos.Manifest.Units.Ticks.{to_ticks-ceil, is_tick_aligned_truncates}
use malleus_rtos.Base.{◌^◌, ◌<◌, none}
use malleus_rtos.Manifest.Units.{to_power_of_two}
use malleus_rtos.Manifest.Units.Powers.{IsLeastPower, to_power_of_two_lem}
use malleus_rtos.Manifest.Units.Meaning.{Denotes, parse_duration-Denotes}

abbrev second_half : Duration
second_half = record { nanos = 1_500_000 }

abbrev stack : ByteSize
stack = record { bytes = 3 * 1024 }

parse-display_duration_example : parse_duration (display_duration second_half) ≡ ok second_half
parse-display_duration_example = parse-display_duration second_half (omega arith)

to_ticks-ceil_example :
    to_ticks second_half 32768 ≡ min (div_ceil (1_500_000 * 32768) second_nanos) u64_max
to_ticks-ceil_example = to_ticks-ceil second_half 32768 (omega arith) (omega arith)

-- The crystal of a watch: 30517 nanoseconds are no tick of it.
is_tick_aligned_truncates_example :
    (is_tick_aligned (record { nanos = second_nanos / 32768 }) 32768 ≡ true)
    × ((k : ℕ) → second_nanos / 32768 * 32768 ≢ k * second_nanos)
is_tick_aligned_truncates_example =
    is_tick_aligned_truncates 32768 (omega arith) (omega arith) (omega arith)

abbrev two_kib : ByteSize
two_kib = record { bytes = 2048 }

abbrev spaced : Text
spaced = codes " 5 ms"

abbrev five_ms : Duration
five_ms = record { nanos = 5_000_000 }

spaced-split : split_value_unit spaced ≡ ok (record { value = 5; unit = codes "ms" })
unfolding split_value_unit split_digits trim trim_start trim_end is_whitespace digits_front
    digits_rest parse_decimal
spaced-split = refl

spaced-parsed : parse_duration spaced ≡ ok five_ms
unfolding parse_duration split_value_unit split_digits trim trim_start trim_end is_whitespace
    digits_front digits_rest parse_decimal duration_multiplier text_eq
spaced-parsed = refl

size-parsed : parse_size (codes "2KiB") ≡ ok two_kib
unfolding parse_size split_value_unit split_digits trim trim_start trim_end is_whitespace
    digits_front digits_rest parse_decimal size_multiplier text_eq
size-parsed = refl

no_number : parse_duration (codes "ms") ≡ err (missing_number (codes "ms"))
unfolding parse_duration split_value_unit split_digits trim trim_start trim_end is_whitespace
    digits_front digits_rest parse_decimal duration_multiplier text_eq
no_number = refl

parse_duration-Denotes_example : (parse_duration spaced ≡ ok five_ms) ↔ Denotes spaced five_ms
parse_duration-Denotes_example = parse_duration-Denotes spaced five_ms

bare-IsDigit : All IsDigit (trim (codes " 12"))
unfolding trim trim_start trim_end is_whitespace
bare-IsDigit = ((omega arith, omega arith), ((omega arith, omega arith), tt))

to_power_of_two_lem_example :
    ((c : ByteSize) → to_power_of_two stack ≡ some c → IsLeastPower 3072 c.bytes)
    × ((to_power_of_two stack ≡ none) ↔ (2 ^ 63 < 3072))
to_power_of_two_lem_example = to_power_of_two_lem stack
