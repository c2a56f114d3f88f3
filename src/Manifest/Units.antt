-- ===== src/Manifest/Units.antt =====
-- crates/malleus-manifest/src/units.rs: durations and sizes that carry their unit.
pub mod RoundTrip
pub mod Ticks
pub mod Order
pub mod Powers
pub mod Errors
pub mod Meaning
mod Examples
use malleus_rtos.Base.{
  ℕ, zero, suc, ◌+◌, ◌-◌, ◌*◌, ◌/◌, ◌%◌, ◌^◌, ltb, leb, ◌==◌, if◌then◌else◌, Bool, true, false,
  ◌&&◌, ◌||◌, not, Option, none, some, List, [], ◌∷◌, ◌++◌, saturating_add_u64, saturating_mul_u64,
  checked_mul_u64, div_ceil,
}
use malleus_rtos.Base.Text.{Text, codes, text_eq}
use malleus_rtos.Base.Results.{Result, ok, err, ◌>>=◌, ok_or}
use malleus_rtos.Base.Decimal.{print_decimal, parse_decimal}
use malleus_rtos.Base.Trim.{trim, digits_front, digits_rest}

-- What was being parsed, for the message.
pub data Kind : Type 0 where
  duration : Kind
  size : Kind

pub data ParseUnitError : Type 0 where
  missing_number : Text → ParseUnitError
  missing_unit : Text → ParseUnitError
  unknown_unit : Text → Kind → Text → ParseUnitError
  overflow : Text → ParseUnitError

abbrev pub kind_text : Kind → Text
kind_text duration = codes "duration"
kind_text size = codes "size"

-- The messages of the derived error type.
unfoldable pub display_error : ParseUnitError → Text
display_error (missing_number s) = codes "`" ++ s ++ codes "` has no numeric part"
display_error (missing_unit s) =
    codes "`"
    ++ s
    ++ codes "` has no unit; write e.g. `500us`, `1ms`, `2KiB` — Malleus never assumes one"
display_error (unknown_unit unit kind expected) =
    codes "`"
    ++ unit
    ++ codes "` is not a valid "
    ++ kind_text kind
    ++ codes " unit (expected one of: "
    ++ expected
    ++ codes ")"
display_error (overflow s) = codes "`" ++ s ++ codes "` is too large to represent"

-- A number with the unit that follows it.
pub record ValueUnit : Type 0 where
  pub value : ℕ
  pub unit : Text

-- The split of a trimmed text, by its digits and what follows them.
unfoldable pub split_digits : Text → Text → Text → Result ParseUnitError ValueUnit
split_digits trimmed ds [] = err (missing_unit trimmed)
split_digits trimmed [] (c ∷ rest) = err (missing_number trimmed)
split_digits trimmed (d ∷ ds) (c ∷ rest) = do
  value ← ok_or (parse_decimal (d ∷ ds)) (overflow trimmed)
  ok (record { value = value; unit = trim (c ∷ rest) })

unfoldable pub split_value_unit : Text → Result ParseUnitError ValueUnit
unfolding split_digits digits_front digits_rest
split_value_unit s =
    let trimmed = trim s in split_digits trimmed (digits_front trimmed) (digits_rest trimmed)

-- The newtype over `u64`, in nanoseconds.
pub record Duration : Type 0 where
  pub nanos : ℕ

abbrev pub from_nanos : ℕ → Duration
from_nanos n = record { nanos = n }

abbrev pub as_nanos : Duration → ℕ
as_nanos d = d.nanos

abbrev pub second_nanos : ℕ
second_nanos = 1_000_000_000

unfoldable pub to_ticks : Duration → ℕ → ℕ
unfolding div_ceil
to_ticks d tick_hz =
    if tick_hz == 0
    then 0
    else saturating_add_u64 (saturating_mul_u64 (d.nanos / second_nanos) tick_hz)
        (div_ceil (saturating_mul_u64 (d.nanos % second_nanos) tick_hz) second_nanos)

unfoldable pub is_tick_aligned : Duration → ℕ → Bool
is_tick_aligned d tick_hz =
    let tick_nanos = second_nanos / tick_hz in
    if tick_hz == 0 then false else not (tick_nanos == 0) && d.nanos % tick_nanos == 0

-- The factor of a duration's suffix.
unfoldable pub duration_multiplier : Text → Option ℕ
unfolding text_eq
duration_multiplier unit =
    if text_eq unit (codes "ns")
    then some 1
    else if text_eq unit (codes "us") || text_eq unit (codes "µs")
    then some 1_000
    else if text_eq unit (codes "ms")
    then some 1_000_000
    else if text_eq unit (codes "s")
    then some 1_000_000_000
    else none

unfoldable pub parse_duration : Text → Result ParseUnitError Duration
parse_duration s = do
  v ← split_value_unit s
  multiplier ←
      ok_or (duration_multiplier v.unit) (unknown_unit v.unit duration (codes "ns, us, ms, s"))
  nanos ← ok_or (checked_mul_u64 v.value multiplier) (overflow s)
  ok (from_nanos nanos)

unfoldable pub display_duration : Duration → Text
display_duration d =
    let n = d.nanos in
    if leb 1_000_000_000 n && n % 1_000_000_000 == 0
    then print_decimal (n / 1_000_000_000) ++ codes "s"
    else if leb 1_000_000 n && n % 1_000_000 == 0
    then print_decimal (n / 1_000_000) ++ codes "ms"
    else if leb 1_000 n && n % 1_000 == 0
    then print_decimal (n / 1_000) ++ codes "us"
    else print_decimal n ++ codes "ns"

-- The newtype over `u64`, in bytes.
pub record ByteSize : Type 0 where
  pub bytes : ℕ

abbrev pub from_bytes : ℕ → ByteSize
from_bytes n = record { bytes = n }

abbrev pub as_bytes : ByteSize → ℕ
as_bytes b = b.bytes

-- The first power of two from `p` on that reaches `n`, trying as many as the fuel.
unfoldable pub double_until : ℕ → ℕ → ℕ → Option ℕ
double_until zero p n = none
double_until (suc fuel) p n =
    let more = double_until fuel (2 * p) n in if leb n p then some p else more

-- `u64::next_power_of_two`: `none` is the overflow panic, where the power is `2 ^ 64`.
unfoldable pub next_power_of_two : ℕ → Option ℕ
unfolding double_until
next_power_of_two n = double_until 64 1 n

unfoldable pub to_power_of_two : ByteSize → Option ByteSize
to_power_of_two b =
    if leb b.bytes 1
    then some (from_bytes 1)
    else elim (next_power_of_two b.bytes) [ none ↦ none | some p ↦ some (from_bytes p) ]

-- The factor of a size's suffix.
unfoldable pub size_multiplier : Text → Option ℕ
unfolding text_eq
size_multiplier unit =
    if text_eq unit (codes "B")
    then some 1
    else if text_eq unit (codes "KiB")
    then some 1024
    else if text_eq unit (codes "MiB")
    then some (1024 * 1024)
    else none

unfoldable pub parse_size : Text → Result ParseUnitError ByteSize
parse_size s = do
  v ← split_value_unit s
  multiplier ← ok_or (size_multiplier v.unit) (unknown_unit v.unit size (codes "B, KiB, MiB"))
  bytes ← ok_or (checked_mul_u64 v.value multiplier) (overflow s)
  ok (from_bytes bytes)

unfoldable pub display_size : ByteSize → Text
display_size b =
    let n = b.bytes in
    if leb (1024 * 1024) n && n % (1024 * 1024) == 0
    then print_decimal (n / (1024 * 1024)) ++ codes "MiB"
    else if leb 1024 n && n % 1024 == 0
    then print_decimal (n / 1024) ++ codes "KiB"
    else print_decimal n ++ codes "B"
