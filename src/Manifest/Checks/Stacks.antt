-- ===== src/Manifest/Checks/Stacks.antt =====
-- crates/malleus-manifest/src/validate.rs, `check_stacks`.
pub mod Exact
use malleus_rtos.Base.{
  ℕ, ◌-◌, Bool, true, false, not, List, [], ◌∷◌, ◌++◌, Option, none, some, ltb, ◌==◌,
}
use malleus_rtos.Base.Text.{Text, codes}
use malleus_rtos.Base.Results.{Result, ok, err}
use malleus_rtos.Base.Decimal.{print_decimal}
use malleus_rtos.Manifest.Units.{
  ByteSize, ParseUnitError, parse_size, display_size, to_power_of_two,
}
use malleus_rtos.Manifest.Schema.{Task, Manifest}
use malleus_rtos.Manifest.Diagnostics.{Severity, warning, error, Code, Diagnostic, when}

abbrev pub min_stack : ℕ
min_stack = 256

unfoldable pub stack_invalid : Task → Diagnostic
stack_invalid t = record {
  severity = error;
  code = Code.m0010;
  location = t.name;
  message = codes "stack `" ++ t.stack ++ codes "` is not a valid size";
  suggestion = codes "write a binary size with an explicit unit, e.g. `2KiB`";
}

unfoldable pub stack_too_small : Task → ByteSize → Diagnostic
stack_too_small t stack = record {
  severity = error;
  code = Code.m0011;
  location = t.name;
  message =
      codes "stack "
      ++ display_size stack
      ++ codes " is below the "
      ++ print_decimal min_stack
      ++ codes "-byte minimum needed for an exception frame";
  suggestion =
      codes "reserve at least 512B; use `cargo malleus analyze --stacks` for a measured figure";
}

unfoldable pub stack_padded : Task → ByteSize → ByteSize → Diagnostic
stack_padded t stack padded = record {
  severity = warning;
  code = Code.m0012;
  location = t.name;
  message =
      codes "stack "
      ++ display_size stack
      ++ codes " will occupy "
      ++ display_size padded
      ++ codes " on an ARMv7-M MPU, wasting "
      ++ print_decimal (padded.bytes - stack.bytes)
      ++ codes " bytes to alignment";
  suggestion =
      codes "round the stack up to `"
      ++ display_size padded
      ++ codes
          "` to make the cost explicit, or move to an ARMv8-M part where regions are 32-byte granular";
}

-- A stack that was read; `none` is the panic of the rounding.
unfoldable pub check_padding : Task → ByteSize → Option ByteSize → Option (List Diagnostic)
check_padding t stack none = none
check_padding t stack (some padded) = some (
    when (ltb stack.bytes min_stack) (stack_too_small t stack)
    ++ when (not (padded.bytes == stack.bytes)) (stack_padded t stack padded))

unfoldable pub check_parsed_stack : Task → Result ParseUnitError ByteSize → Option (List Diagnostic)
unfolding check_padding
check_parsed_stack t (err e) = some (stack_invalid t ∷ [])
check_parsed_stack t (ok stack) = check_padding t stack (to_power_of_two stack)

-- The findings of one task ahead of those of the others.
unfoldable pub join_findings :
    Option (List Diagnostic) → Option (List Diagnostic) → Option (List Diagnostic)
join_findings none rest = none
join_findings (some ds) none = none
join_findings (some ds) (some es) = some (ds ++ es)

unfoldable pub check_tasks_stacks : List Task → Option (List Diagnostic)
unfolding join_findings
check_tasks_stacks [] = some []
check_tasks_stacks (t ∷ ts) =
    join_findings (check_parsed_stack t (parse_size t.stack)) (check_tasks_stacks ts)

-- `none` is an abort of the tool.
unfoldable pub check_stacks : Manifest → Option (List Diagnostic)
unfolding check_tasks_stacks
check_stacks m = check_tasks_stacks m.tasks
