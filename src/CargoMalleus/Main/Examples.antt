-- ===== src/CargoMalleus/Main/Examples.antt =====
-- Tests and instances of the theorems on the exit status.
use malleus_rtos.Base.{◌≡◌, ◌≢◌, refl, true, if◌then◌else◌, List, [], ◌∷◌, Option, none, some}
use malleus_rtos.Base.Text.{Text, codes, text_eq, text_eq-false_iff}
use malleus_rtos.Base.Results.{Result, ok}
use malleus_rtos.Manifest.Schema.{Manifest}
use malleus_rtos.Manifest.Validate.Examples.{in_order, timed_plant}
use malleus_rtos.CargoMalleus.Outcome.{success, failure}
use malleus_rtos.CargoMalleus.Command.{check, analyze, build}
use malleus_rtos.CargoMalleus.Main.{
  CommandLine, parsed, informed, refused, exited, strip_subcommand, main,
}

abbrev from_str : Text → Result Text Manifest
from_str s = ok timed_plant

-- One file, and a parser that knows four command lines.
abbrev files : Text → Option Text
files path = if text_eq path (codes "malleus.toml") then some (codes "[system]") else none

abbrev command_of : Text → CommandLine
command_of word =
    if text_eq word (codes "check")
    then parsed (check (codes "malleus.toml") true)
    else if text_eq word (codes "analyze")
    then parsed (analyze (codes "other.toml"))
    else if text_eq word (codes "--version")
    then informed
    else parsed build

abbrev parse_from : List Text → CommandLine
parse_from [] = refused
parse_from (name ∷ []) = refused
parse_from (name ∷ word ∷ words) = command_of word

missing_file :
    main in_order from_str files parse_from (codes "cargo-malleus" ∷ codes "analyze" ∷ [])
    ≡ exited failure
unfolding main strip_subcommand text_eq
missing_file = refl

version_asked :
    main in_order from_str files parse_from (codes "cargo-malleus" ∷ codes "--version" ∷ [])
    ≡ exited success
unfolding main strip_subcommand text_eq
version_asked = refl

check_differs : codes "check" ≢ codes "malleus"
unfolding text_eq
check_differs = (text_eq-false_iff (codes "check") (codes "malleus")).0 refl
