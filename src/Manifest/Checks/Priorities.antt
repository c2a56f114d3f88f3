-- ===== src/Manifest/Checks/Priorities.antt =====
-- crates/malleus-manifest/src/validate.rs, `check_priorities`.
pub mod Exact
use malleus_rtos.Base.{
  ℕ, ◌+◌, Bool, true, false, List, [], ◌∷◌, ◌++◌, Option, none, some, ltb, ◌==◌, if◌then◌else◌,
  length,
}
use malleus_rtos.Base.Text.{Text, codes}
use malleus_rtos.Base.Decimal.{print_decimal}
use malleus_rtos.Manifest.Schema.{Task, Manifest}
use malleus_rtos.Manifest.Diagnostics.{Severity, warning, error, Code, Diagnostic, when}

abbrev pub max_priority : ℕ
max_priority = 31

unfoldable pub priority_out_of_range : Task → Diagnostic
priority_out_of_range t = record {
  severity = error;
  code = Code.m0003;
  location = t.name;
  message =
      codes "priority "
      ++ print_decimal t.priority
      ++ codes " is out of range (the kernel provides 0..="
      ++ print_decimal max_priority
      ++ codes ")";
  suggestion =
      codes
        "lower the priority, or reconsider the design: needing more than 32 distinct urgency levels usually means priorities are encoding something else";
}

unfoldable pub priority_reserved : Task → Diagnostic
priority_reserved t = record {
  severity = error;
  code = Code.m0004;
  location = t.name;
  message = codes "priority 0 is reserved for the kernel idle task";
  suggestion = codes "use priority 1 for the least urgent application task";
}

-- The names of the tasks that declare a deadline, grouped by priority.
pub record Group : Type 0 where
  pub priority : ℕ
  pub names : List Text

-- `names.join(", ")`.
unfoldable pub join_names : List Text → Text
join_names [] = []
join_names (n ∷ []) = n
join_names (n ∷ m ∷ ns) = n ++ codes ", " ++ join_names (m ∷ ns)

unfoldable pub shared_priority : Group → Diagnostic
unfolding join_names
shared_priority g = record {
  severity = warning;
  code = Code.m0005;
  location = join_names g.names;
  message =
      print_decimal (length g.names)
      ++ codes " tasks with declared deadlines share priority "
      ++ print_decimal g.priority;
  suggestion =
      codes
        "tasks at the same priority run FIFO, so each one's worst case includes the others' execution; give them distinct priorities, or accept the coupling and check the response-time report";
}

unfoldable pub check_ranges : List Task → List Diagnostic
check_ranges [] = []
check_ranges (t ∷ ts) =
    when (ltb max_priority t.priority) (priority_out_of_range t)
    ++ (when (t.priority == 0) (priority_reserved t) ++ check_ranges ts)

-- `entry(priority).or_default().push(name)`.
unfoldable pub add_to_group : ℕ → Text → List Group → List Group
add_to_group p name [] = record { priority = p; names = name ∷ [] } ∷ []
add_to_group p name (g ∷ gs) =
    if g.priority == p
    then record g { names = g.names ++ name ∷ [] } ∷ gs
    else g ∷ add_to_group p name gs

-- One task's entry in the map.
unfoldable pub add_task : Task → List Group → List Group
unfolding add_to_group
add_task t gs = elim t.deadline [ none ↦ gs | some d ↦ add_to_group t.priority t.name gs ]

unfoldable pub group_tasks : List Task → List Group → List Group
unfolding add_task
group_tasks [] gs = gs
group_tasks (t ∷ ts) gs = group_tasks ts (add_task t gs)

unfoldable pub check_groups : List Group → List Diagnostic
check_groups [] = []
check_groups (g ∷ gs) = when (ltb 1 (length g.names)) (shared_priority g) ++ check_groups gs

-- `visit` is the order in which the hash map hands out its entries, which is not specified.
unfoldable pub check_priorities : (List Group → List Group) → Manifest → List Diagnostic
unfolding check_ranges group_tasks check_groups
check_priorities visit m = check_ranges m.tasks ++ check_groups (visit (group_tasks m.tasks []))
