-- ===== src/Manifest/Checks/Channels.antt =====
-- crates/malleus-manifest/src/validate.rs, `check_channels` and `sorted_list`.
pub mod Exact
use malleus_rtos.Base.{
  ℕ, Bool, true, false, not, ◌&&◌, ◌||◌, List, [], ◌∷◌, ◌++◌, map, Option, none, some, ltb, ◌==◌,
  if◌then◌else◌,
}
use malleus_rtos.Base.Text.{Text, codes, text_eq, text_mem}
use malleus_rtos.Base.Decimal.{print_decimal}
use malleus_rtos.Manifest.Schema.{Task, Channel, Manifest, task}
use malleus_rtos.Manifest.Diagnostics.{Severity, warning, error, Code, Diagnostic, when}
use malleus_rtos.Manifest.Checks.Priorities.{join_names}

-- The order of `str`: lexicographic.
unfoldable pub text_lt : Text → Text → Bool
text_lt [] [] = false
text_lt [] (d ∷ t) = true
text_lt (c ∷ s) [] = false
text_lt (c ∷ s) (d ∷ t) = ltb c d || c == d && text_lt s t

-- A set of names in ascending order: a name that is there already is not added again.
unfoldable pub insert_name : Text → List Text → List Text
insert_name n [] = n ∷ []
insert_name n (m ∷ ms) =
    if text_eq n m then m ∷ ms else if text_lt n m then n ∷ m ∷ ms else m ∷ insert_name n ms

unfoldable pub sort_names : List Text → List Text
sort_names [] = []
sort_names (n ∷ ns) = insert_name n (sort_names ns)

unfoldable pub sorted_list : List Text → Text
sorted_list names = join_names (sort_names names)

unfoldable pub duplicate_channel : Channel → Diagnostic
duplicate_channel c = record {
  severity = error;
  code = Code.m0013;
  location = c.name;
  message = codes "channel name `" ++ c.name ++ codes "` is declared more than once";
  suggestion = codes "give each channel a distinct name";
}

unfoldable pub undeclared_endpoint : Channel → List Text → Text → Text → Diagnostic
undeclared_endpoint c names role endpoint = record {
  severity = error;
  code = Code.m0014;
  location = c.name;
  message =
      codes "`" ++ role ++ codes "` names task `" ++ endpoint ++ codes "`, which is not declared";
  suggestion =
      codes "declare a `[[task]]` named `"
      ++ endpoint
      ++ codes "`, or correct the spelling — known tasks: "
      ++ sorted_list names;
}

unfoldable pub self_channel : Channel → Diagnostic
self_channel c = record {
  severity = error;
  code = Code.m0015;
  location = c.name;
  message = codes "task `" ++ c.from ++ codes "` sends to itself";
  suggestion = codes "a task does not need IPC to talk to itself; use an ordinary local queue";
}

unfoldable pub capacity_zero : Channel → Diagnostic
capacity_zero c = record {
  severity = error;
  code = Code.m0016;
  location = c.name;
  message = codes "capacity 0 is not a valid queue depth";
  suggestion =
      codes
        "use capacity 1 for a single-slot mailbox; unbuffered handoff is a `[[rendezvous]]`, which has different blocking semantics";
}

abbrev pub valid_overflow : List Text
valid_overflow = codes "block" ∷ codes "reject" ∷ codes "drop-oldest" ∷ codes "drop-newest" ∷ []

unfoldable pub overflow_invalid : Channel → Diagnostic
overflow_invalid c = record {
  severity = error;
  code = Code.m0017;
  location = c.name;
  message = codes "`" ++ c.overflow ++ codes "` is not a valid overflow policy";
  suggestion =
      codes "choose one of: "
      ++ join_names valid_overflow
      ++ codes
          ". There is no default: the right answer depends on whether losing a message is worse than delaying one";
}

unfoldable pub blocking_inversion : Channel → Task → Task → Diagnostic
blocking_inversion c from to = record {
  severity = warning;
  code = Code.m0018;
  location = c.name;
  message =
      codes "`"
      ++ from.name
      ++ codes "` (priority "
      ++ print_decimal from.priority
      ++ codes ") blocks on a channel drained by `"
      ++ to.name
      ++ codes "` (priority "
      ++ print_decimal to.priority
      ++ codes ")";
  suggestion =
      codes
        "this is priority inversion by construction: the urgent sender waits for the less urgent receiver. Use `drop-oldest` if the data is sampled state, or raise the receiver's priority";
}

unfoldable pub check_inversion : Channel → Option Task → Option Task → List Diagnostic
check_inversion c none to = []
check_inversion c (some from) none = []
check_inversion c (some from) (some to) =
    when (text_eq c.overflow (codes "block") && ltb to.priority from.priority)
      (blocking_inversion c from to)

-- One round of the loop over the channels, with the channel names seen before it.
unfoldable pub check_channel : Manifest → List Text → List Text → Channel → List Diagnostic
check_channel m names seen c =
    when (text_mem c.name seen) (duplicate_channel c)
    ++ (when (not (text_mem c.from names)) (undeclared_endpoint c names (codes "from") c.from)
        ++ (when (not (text_mem c.to names)) (undeclared_endpoint c names (codes "to") c.to)
            ++ (when (text_eq c.from c.to) (self_channel c)
                ++ (when (c.capacity == 0) (capacity_zero c)
                    ++ (when (not (text_mem c.overflow valid_overflow)) (overflow_invalid c)
                        ++ check_inversion c (task m c.from) (task m c.to))))))

unfoldable pub check_channels_from :
    Manifest → List Text → List Text → List Channel → List Diagnostic
check_channels_from m names seen [] = []
check_channels_from m names seen (c ∷ cs) =
    check_channel m names seen c ++ check_channels_from m names (c.name ∷ seen) cs

abbrev pub task_names : List Task → List Text
task_names = map (λ t. t.name)

unfoldable pub check_channels : Manifest → List Diagnostic
check_channels m = check_channels_from m (task_names m.tasks) [] m.channels
