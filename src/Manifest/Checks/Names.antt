-- ===== src/Manifest/Checks/Names.antt =====
-- crates/malleus-manifest/src/validate.rs, `check_task_names`.
pub mod Exact
use malleus_rtos.Base.{ℕ, Bool, true, false, List, [], ◌∷◌, ◌++◌}
use malleus_rtos.Base.Text.{Text, codes, text_mem}
use malleus_rtos.Manifest.Schema.{Task, Manifest}
use malleus_rtos.Manifest.Diagnostics.{Severity, warning, error, Code, Diagnostic, when}

unfoldable pub is_empty_text : Text → Bool
is_empty_text [] = true
is_empty_text (c ∷ s) = false

unfoldable pub duplicate_name : Task → Diagnostic
duplicate_name t = record {
  severity = error;
  code = Code.m0001;
  location = t.name;
  message = codes "task name `" ++ t.name ++ codes "` is declared more than once";
  suggestion =
      codes
        "task names identify endpoints in generated code and traces; give each task a distinct name";
}

unfoldable pub empty_name : Diagnostic
empty_name = record {
  severity = error;
  code = Code.m0002;
  location = codes "[[task]]";
  message = codes "task name is empty";
  suggestion = codes "give the task a short kebab-case name, e.g. `motor-control`";
}

-- The loop over the tasks, with the names seen so far.
unfoldable pub check_names_from : List Text → List Task → List Diagnostic
unfolding is_empty_text
check_names_from seen [] = []
check_names_from seen (t ∷ ts) =
    when (text_mem t.name seen) (duplicate_name t)
    ++ (when (is_empty_text t.name) empty_name ++ check_names_from (t.name ∷ seen) ts)

unfoldable pub check_task_names : Manifest → List Diagnostic
unfolding check_names_from
check_task_names m = check_names_from [] m.tasks
