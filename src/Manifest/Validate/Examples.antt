-- ===== src/Manifest/Validate/Examples.antt =====
-- Tests and instances of the theorems on the validator, on a small system.
use malleus_rtos.Base.{◌≡◌, ◌≢◌, ◌↔◌, refl, List, [], ◌∷◌, All, map, Option, none, some, false}
use malleus_rtos.Base.Text.{Text, codes, text_eq, text_mem}
use malleus_rtos.Base.Results.{Result, ok, err}
use malleus_rtos.Base.Decimal.{scan_decimal, parse_decimal}
use malleus_rtos.Base.Trim.{is_whitespace, trim_start, trim_end, trim, digits_front, digits_rest}
use malleus_rtos.Manifest.Units.{
  split_digits, split_value_unit, is_tick_aligned, duration_multiplier, parse_duration,
  double_until, next_power_of_two, to_power_of_two, size_multiplier, parse_size,
}
use malleus_rtos.Manifest.Diagnostics.{Diagnostic, Code, Clean, error_count}
use malleus_rtos.Manifest.Schema.{Task, Channel, Manifest, task}
use malleus_rtos.Manifest.Checks.Names.{
  is_empty_text, duplicate_name, empty_name, check_names_from, check_task_names,
}
use malleus_rtos.Manifest.Checks.Priorities.{
  Group, priority_out_of_range, priority_reserved, shared_priority, check_ranges, add_to_group,
  add_task, group_tasks, check_groups, check_priorities,
}
use malleus_rtos.Manifest.Checks.Timing.{
  scale_hz, tick_parts, parse_tick_hz, tick_rate_unusable, tick_rate_zero, check_tick_rate,
  invalid_duration, parsed_field, parse_field, period_zero, reject_zero, deadline_too_long,
  check_deadline, wcet_too_long, check_wcet, wcet_missing, deadline_without_wcet, period_misaligned,
  check_alignment, check_task_timing, check_tasks_timing, check_timing,
}
use malleus_rtos.Manifest.Checks.Stacks.{
  stack_invalid, stack_too_small, stack_padded, check_padding, check_parsed_stack, join_findings,
  check_tasks_stacks, check_stacks,
}
use malleus_rtos.Manifest.Checks.Channels.{
  duplicate_channel, undeclared_endpoint, self_channel, capacity_zero, overflow_invalid,
  blocking_inversion, check_inversion, check_channel, check_channels_from, check_channels,
}
use malleus_rtos.Manifest.Checks.Capabilities.{
  strip_prefix, channel_named, duplicate_capability, undeclared_channel, not_an_endpoint,
  check_channel_use, check_named, check_task_capabilities, check_tasks_capabilities,
  unclaimed_channel, claimed, check_claims, check_capabilities,
}
use malleus_rtos.Manifest.Validate.{syntax_error, invalid, assemble, validate, parse_and_validate}
use malleus_rtos.Base.{◌<◌, ◌⊎◌}
use malleus_rtos.Manifest.Units.{parse_size}
use malleus_rtos.Manifest.Checks.Stacks.Exact.{Roundable}
use malleus_rtos.Manifest.Validate.Exact.{
  WellFormed, validate-Clean, validate-none, parse_and_validate-cases,
}

abbrev sensor : Task
sensor = record {
  name = codes "sensor";
  priority = 10;
  stack = codes "1KiB";
  period = some (codes "5ms");
  deadline = some (codes "4ms");
  wcet = some (codes "1ms");
  capabilities = codes "ipc.samples" ∷ [];
  isolated = false;
}

abbrev motor : Task
motor = record sensor { name = codes "motor"; priority = 20; deadline = none; wcet = none }

abbrev samples : Channel
samples = record {
  name = codes "samples";
  from = codes "sensor";
  to = codes "motor";
  capacity = 8;
  overflow = codes "drop-oldest";
}

abbrev pub plant : Manifest
plant = record {
  system = record { name = codes "plant"; board = codes "nucleo"; tick_rate = codes "1MHz" };
  tasks = sensor ∷ motor ∷ [];
  channels = samples ∷ [];
}

abbrev pub in_order : List Group → List Group
in_order gs = gs

-- One code a diagnostic, in the report's order.
abbrev codes_of : Option (List Diagnostic) → List Code
codes_of none = []
codes_of (some ds) = map (λ d. d.code) ds

plant_report : validate in_order plant ≡ some []
unfolding text_eq text_mem scan_decimal parse_decimal is_whitespace trim_start trim_end trim
    digits_front digits_rest split_digits split_value_unit is_tick_aligned duration_multiplier
    parse_duration double_until next_power_of_two to_power_of_two size_multiplier parse_size task
    is_empty_text duplicate_name empty_name check_names_from check_task_names priority_out_of_range
    priority_reserved shared_priority check_ranges add_to_group add_task group_tasks check_groups
    check_priorities scale_hz tick_parts parse_tick_hz tick_rate_unusable tick_rate_zero
    check_tick_rate invalid_duration parsed_field parse_field period_zero reject_zero
    deadline_too_long check_deadline wcet_too_long check_wcet wcet_missing deadline_without_wcet
    period_misaligned check_alignment check_task_timing check_tasks_timing check_timing
    stack_invalid stack_too_small stack_padded check_padding check_parsed_stack join_findings
    check_tasks_stacks check_stacks duplicate_channel undeclared_endpoint self_channel capacity_zero
    overflow_invalid blocking_inversion check_inversion check_channel check_channels_from
    check_channels strip_prefix channel_named duplicate_capability undeclared_channel
    not_an_endpoint check_channel_use check_named check_task_capabilities check_tasks_capabilities
    unclaimed_channel claimed check_claims check_capabilities assemble validate
plant_report = refl

-- The same system with both execution times declared.
abbrev pub timed_plant : Manifest
timed_plant = record plant { tasks = sensor ∷ record motor { wcet = some (codes "500us") } ∷ [] }

pub timed_plant_report : validate in_order timed_plant ≡ some []
unfolding text_eq text_mem scan_decimal parse_decimal is_whitespace trim_start trim_end trim
    digits_front digits_rest split_digits split_value_unit is_tick_aligned duration_multiplier
    parse_duration double_until next_power_of_two to_power_of_two size_multiplier parse_size task
    is_empty_text duplicate_name empty_name check_names_from check_task_names priority_out_of_range
    priority_reserved shared_priority check_ranges add_to_group add_task group_tasks check_groups
    check_priorities scale_hz tick_parts parse_tick_hz tick_rate_unusable tick_rate_zero
    check_tick_rate invalid_duration parsed_field parse_field period_zero reject_zero
    deadline_too_long check_deadline wcet_too_long check_wcet wcet_missing deadline_without_wcet
    period_misaligned check_alignment check_task_timing check_tasks_timing check_timing
    stack_invalid stack_too_small stack_padded check_padding check_parsed_stack join_findings
    check_tasks_stacks check_stacks duplicate_channel undeclared_endpoint self_channel capacity_zero
    overflow_invalid blocking_inversion check_inversion check_channel check_channels_from
    check_channels strip_prefix channel_named duplicate_capability undeclared_channel
    not_an_endpoint check_channel_use check_named check_task_capabilities check_tasks_capabilities
    unclaimed_channel claimed check_claims check_capabilities assemble validate
timed_plant_report = refl

-- A second task of the same name, idle priority and too small a stack, on a clock that stands.
abbrev broken : Manifest
broken = record {
  system = record { name = codes "plant"; board = codes "nucleo"; tick_rate = codes "0Hz" };
  tasks = sensor ∷ record sensor { priority = 0; stack = codes "100B" } ∷ [];
  channels = [];
}

broken_report :
    codes_of (validate in_order broken)
    ≡ Code.m0001 ∷ Code.m0004 ∷ Code.m0025 ∷ Code.m0011 ∷ Code.m0012 ∷ Code.m0020 ∷ Code.m0020 ∷ []
unfolding text_eq text_mem scan_decimal parse_decimal is_whitespace trim_start trim_end trim
    digits_front digits_rest split_digits split_value_unit is_tick_aligned duration_multiplier
    parse_duration double_until next_power_of_two to_power_of_two size_multiplier parse_size task
    is_empty_text duplicate_name empty_name check_names_from check_task_names priority_out_of_range
    priority_reserved shared_priority check_ranges add_to_group add_task group_tasks check_groups
    check_priorities scale_hz tick_parts parse_tick_hz tick_rate_unusable tick_rate_zero
    check_tick_rate invalid_duration parsed_field parse_field period_zero reject_zero
    deadline_too_long check_deadline wcet_too_long check_wcet wcet_missing deadline_without_wcet
    period_misaligned check_alignment check_task_timing check_tasks_timing check_timing
    stack_invalid stack_too_small stack_padded check_padding check_parsed_stack join_findings
    check_tasks_stacks check_stacks duplicate_channel undeclared_endpoint self_channel capacity_zero
    overflow_invalid blocking_inversion check_inversion check_channel check_channels_from
    check_channels strip_prefix channel_named duplicate_capability undeclared_channel
    not_an_endpoint check_channel_use check_named check_task_capabilities check_tasks_capabilities
    unclaimed_channel claimed check_claims check_capabilities assemble validate
broken_report = refl

no_report :
    validate in_order
      (record plant { tasks = record sensor { stack = codes "9007199254740993KiB" } ∷ [] })
    ≡ none
unfolding text_eq text_mem scan_decimal parse_decimal is_whitespace trim_start trim_end trim
    digits_front digits_rest split_digits split_value_unit is_tick_aligned duration_multiplier
    parse_duration double_until next_power_of_two to_power_of_two size_multiplier parse_size task
    is_empty_text duplicate_name empty_name check_names_from check_task_names priority_out_of_range
    priority_reserved shared_priority check_ranges add_to_group add_task group_tasks check_groups
    check_priorities scale_hz tick_parts parse_tick_hz tick_rate_unusable tick_rate_zero
    check_tick_rate invalid_duration parsed_field parse_field period_zero reject_zero
    deadline_too_long check_deadline wcet_too_long check_wcet wcet_missing deadline_without_wcet
    period_misaligned check_alignment check_task_timing check_tasks_timing check_timing
    stack_invalid stack_too_small stack_padded check_padding check_parsed_stack join_findings
    check_tasks_stacks check_stacks duplicate_channel undeclared_endpoint self_channel capacity_zero
    overflow_invalid blocking_inversion check_inversion check_channel check_channels_from
    check_channels strip_prefix channel_named duplicate_capability undeclared_channel
    not_an_endpoint check_channel_use check_named check_task_capabilities check_tasks_capabilities
    unclaimed_channel claimed check_claims check_capabilities assemble validate
no_report = refl

plant_stacks : check_stacks plant ≡ some []
unfolding text_eq text_mem scan_decimal parse_decimal is_whitespace trim_start trim_end trim
    digits_front digits_rest split_digits split_value_unit is_tick_aligned duration_multiplier
    parse_duration double_until next_power_of_two to_power_of_two size_multiplier parse_size task
    is_empty_text duplicate_name empty_name check_names_from check_task_names priority_out_of_range
    priority_reserved shared_priority check_ranges add_to_group add_task group_tasks check_groups
    check_priorities scale_hz tick_parts parse_tick_hz tick_rate_unusable tick_rate_zero
    check_tick_rate invalid_duration parsed_field parse_field period_zero reject_zero
    deadline_too_long check_deadline wcet_too_long check_wcet wcet_missing deadline_without_wcet
    period_misaligned check_alignment check_task_timing check_tasks_timing check_timing
    stack_invalid stack_too_small stack_padded check_padding check_parsed_stack join_findings
    check_tasks_stacks check_stacks duplicate_channel undeclared_endpoint self_channel capacity_zero
    overflow_invalid blocking_inversion check_inversion check_channel check_channels_from
    check_channels strip_prefix channel_named duplicate_capability undeclared_channel
    not_an_endpoint check_channel_use check_named check_task_capabilities check_tasks_capabilities
    unclaimed_channel claimed check_claims check_capabilities assemble validate
plant_stacks = refl

validate-Clean_example : Clean [] ↔ WellFormed plant
validate-Clean_example = validate-Clean in_order plant plant_report

validate-none_example :
    (validate in_order plant ≢ none) ↔ All (λ t. Roundable (parse_size t.stack)) plant.tasks
validate-none_example = validate-none in_order plant

-- The report is empty, so the system is well formed.
pub plant-WellFormed : WellFormed plant
unfolding error_count
plant-WellFormed = (validate-Clean in_order plant plant_report).0 refl

-- A reader that knows one text.
abbrev reader : Text → Result Text Manifest
reader [] = err (codes "empty document")
reader (c ∷ s) = ok plant

parse_and_validate-cases_example :
    ((e : Text)
      → reader (codes "[system]") ≡ err e
      → parse_and_validate in_order reader (codes "[system]") ≡ some (err (syntax_error e)))
    × ((m : Manifest) (report : List Diagnostic)
        → reader (codes "[system]") ≡ ok m
        → validate in_order m ≡ some report
        → (WellFormed m
            × (parse_and_validate in_order reader (codes "[system]")
                ≡ some (ok (record { manifest = m; report = report }))))
          ⊎ ((WellFormed m → ⊥)
              × (0 < error_count report)
              × (parse_and_validate in_order reader (codes "[system]")
                  ≡ some (err (invalid (error_count report))))))
parse_and_validate-cases_example = parse_and_validate-cases in_order reader (codes "[system]")
