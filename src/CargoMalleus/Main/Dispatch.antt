-- ===== src/CargoMalleus/Main/Dispatch.antt =====
-- The exit status of the tool: what success stands for, and the commands that are still to come.
use malleus_rtos.Base.{
  ℕ, suc, ◌≡◌, ◌≢◌, refl, sym, ap, ◌∙◌, arith, Bool, false, ◌==◌, List, [], ◌∷◌, Option, some,
}
use malleus_rtos.Base.Text.{Text, codes, text_eq_refl, text_eq-false_iff}
use malleus_rtos.Base.Results.{Result}
use malleus_rtos.Manifest.Schema.{Manifest}
use malleus_rtos.Manifest.Checks.Priorities.{Group}
use malleus_rtos.CargoMalleus.Outcome.{ExitCode, failure, Outcome, returned}
use malleus_rtos.CargoMalleus.Command.{Command, check, analyze, checkpoint}
use malleus_rtos.CargoMalleus.Check.{Checked}
use malleus_rtos.CargoMalleus.Analyze.Verdict.{Schedulable}
use malleus_rtos.CargoMalleus.Main.{
  CommandLine, parsed, informed, RunError, strip_from, strip_subcommand, run_from, run_command,
  main_parsed, main,
}

-- From the third argument on nothing is stripped.
strip_from-late : (i : ℕ) (args : List Text) → strip_from (suc (suc i)) args ≡ args
unfolding strip_from
strip_from-late i [] = refl
strip_from-late i (arg ∷ args) =
    let late : (suc (suc i) == 1) ≡ false = ground arith in
    rw late (ap (λ (rest : List Text). arg ∷ rest) (strip_from-late (suc i) args))

strip_subcommand_word :
    (name : Text) (args : List Text)
    → strip_subcommand (name ∷ codes "malleus" ∷ args) ≡ name ∷ args
unfolding strip_subcommand strip_from
strip_subcommand_word name args =
    rw (text_eq_refl (codes "malleus"))
      (ap (λ (rest : List Text). name ∷ rest) (strip_from-late 0 args))

strip_subcommand_other :
    (name arg : Text) (args : List Text)
    → arg ≢ codes "malleus"
    → strip_subcommand (name ∷ arg ∷ args) ≡ name ∷ arg ∷ args
unfolding strip_subcommand strip_from
strip_subcommand_other name arg args h =
    rw ((text_eq-false_iff arg (codes "malleus")).1 h)
      (ap (λ (rest : List Text). name ∷ arg ∷ rest) (strip_from-late 0 args))

module _ {E : Type 0} (visit : List Group → List Group) (from_str : Text → Result E Manifest)
    (read_to_string : Text → Option Text) (parse_from : List Text → CommandLine) where
  -- A command that has something to succeed at.
  pub data Achieved : Command → Type 0 where
    checked :
        {path source : Text} {deny : Bool}
        → read_to_string path ≡ some source
        → Checked visit (from_str source) deny
        → Achieved (check path deny)
    analyzed :
        {path source : Text}
        → read_to_string path ≡ some source
        → Schedulable visit (from_str source)
        → Achieved (analyze path)

  abbrev runs : Command → Outcome (RunError E) ExitCode
  runs = run_command visit from_str read_to_string parse_from

  -- What the tool can succeed at: the parser told what was asked of it, or a command was achieved.
  pub data Succeeds : CommandLine → Type 0 where
    told : Succeeds informed
    achieved : {c : Command} → Achieved c → Succeeds (parsed c)

  -- `cargo malleus ...` is `cargo-malleus ...`: unless the first word of the arguments is again
  -- `malleus`, the tool does the same with and without the word that cargo inserts.
  pub main_as_subcommand :
      (name arg : Text) (args : List Text)
      → arg ≢ codes "malleus"
      → main visit from_str read_to_string parse_from (name ∷ codes "malleus" ∷ arg ∷ args)
        ≡ main visit from_str read_to_string parse_from (name ∷ arg ∷ args)
  unfolding main
  main_as_subcommand name arg args h =
      ap (λ words. main_parsed visit from_str read_to_string parse_from (parse_from words))
        (strip_subcommand_word name (arg ∷ args) ∙ sym (strip_subcommand_other name arg args h))

  -- A command with a checkpoint to come is refused whatever the files hold: it returns the code
  -- of failure, so that the `unreachable!` behind it is never met.
  pub run_command_pending :
      (c : Command) (pending : Text × Text)
      → checkpoint c ≡ some pending
      → runs c ≡ returned failure
  unfolding run_command run_from
  run_command_pending c pending e = rw e refl
