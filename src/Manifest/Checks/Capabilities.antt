-- ===== src/Manifest/Checks/Capabilities.antt =====
-- crates/malleus-manifest/src/validate.rs, `check_capabilities`.
pub mod Exact
use malleus_rtos.Base.{
  ℕ, zero, suc, Bool, true, false, not, ◌&&◌, ◌||◌, List, [], ◌∷◌, ◌++◌, Option, none, some, ◌==◌,
  if◌then◌else◌,
}
use malleus_rtos.Base.{length, select}
use malleus_rtos.Base.Text.{Text, codes, text_eq, text_mem}
use malleus_rtos.Manifest.Schema.{Task, Channel, Manifest}
use malleus_rtos.Manifest.Diagnostics.{Severity, warning, error, Code, Diagnostic, when}

-- `str::strip_prefix`.
unfoldable pub strip_prefix : Text → Text → Option Text
strip_prefix [] s = some s
strip_prefix (c ∷ p) [] = none
strip_prefix (c ∷ p) (d ∷ s) = if c == d then strip_prefix p s else none

abbrev pub ipc_prefix : Text
ipc_prefix = codes "ipc."

-- The entry of the map collected from the channels: of two with one name the later one stays.
unfoldable pub channel_named : List Channel → Text → Option Channel
channel_named [] name = none
channel_named (c ∷ cs) name = elim (channel_named cs name) [
  | some d ↦ some d
  | none ↦ if text_eq c.name name then some c else none
]

unfoldable pub duplicate_capability : Task → Text → Diagnostic
duplicate_capability t capability = record {
  severity = warning;
  code = Code.m0019;
  location = t.name;
  message = codes "capability `" ++ capability ++ codes "` is listed twice";
  suggestion = codes "remove the duplicate";
}

unfoldable pub undeclared_channel : Task → Text → Text → Diagnostic
undeclared_channel t capability name = record {
  severity = error;
  code = Code.m0020;
  location = t.name;
  message = codes "capability `" ++ capability ++ codes "` names an undeclared channel";
  suggestion =
      codes "declare `[[channel]] name = \"" ++ name ++ codes "\"`, or correct the spelling";
}

unfoldable pub not_an_endpoint : Task → Text → Text → Channel → Diagnostic
not_an_endpoint t capability name c = record {
  severity = error;
  code = Code.m0021;
  location = t.name;
  message =
      codes "task holds `"
      ++ capability
      ++ codes "` but is neither endpoint of channel `"
      ++ name
      ++ codes "` (which runs `"
      ++ c.from
      ++ codes "` → `"
      ++ c.to
      ++ codes "`)";
  suggestion = codes "grant the capability to an endpoint, or add a channel connecting this task";
}

unfoldable pub check_channel_use : Task → Text → Text → Option Channel → List Diagnostic
check_channel_use t capability name none = undeclared_channel t capability name ∷ []
check_channel_use t capability name (some c) =
    when (not (text_eq c.from t.name) && not (text_eq c.to t.name))
      (not_an_endpoint t capability name c)

-- What a capability names, by its prefix: nothing is checked where it names no channel.
unfoldable pub check_named : List Channel → Task → Text → Option Text → List Diagnostic
check_named channels t capability none = []
check_named channels t capability (some name) =
    check_channel_use t capability name (channel_named channels name)

unfoldable pub check_task_capabilities :
    List Channel → Task → List Text → List Text → List Diagnostic
check_task_capabilities channels t seen [] = []
check_task_capabilities channels t seen (capability ∷ rest) =
    when (text_mem capability seen) (duplicate_capability t capability)
    ++ (check_named channels t capability (strip_prefix ipc_prefix capability)
        ++ check_task_capabilities channels t (capability ∷ seen) rest)

unfoldable pub check_tasks_capabilities : List Channel → List Task → List Diagnostic
check_tasks_capabilities channels [] = []
check_tasks_capabilities channels (t ∷ ts) =
    check_task_capabilities channels t [] t.capabilities ++ check_tasks_capabilities channels ts

unfoldable pub unclaimed_channel : Channel → Diagnostic
unclaimed_channel c = record {
  severity = warning;
  code = Code.m0022;
  location = c.name;
  message =
      codes "channel is declared but neither endpoint holds its capability, so no task can use it";
  suggestion =
      codes "add `\""
      ++ ipc_prefix
      ++ c.name
      ++ codes "\"` to the capabilities of `"
      ++ c.from
      ++ codes "` and `"
      ++ c.to
      ++ codes "`, or delete the channel to reclaim its RAM";
}

-- The endpoints that hold the channel's capability.
unfoldable pub claimed : List Task → Channel → ℕ
claimed tasks c = length (
    select
      (λ t.
        (text_eq t.name c.from || text_eq t.name c.to)
        && text_mem (ipc_prefix ++ c.name) t.capabilities)
      tasks)

unfoldable pub check_claims : List Task → List Channel → List Diagnostic
check_claims tasks [] = []
check_claims tasks (c ∷ cs) =
    when (claimed tasks c == 0) (unclaimed_channel c) ++ check_claims tasks cs

unfoldable pub check_capabilities : Manifest → List Diagnostic
check_capabilities m =
    check_tasks_capabilities m.channels m.tasks ++ check_claims m.tasks m.channels
