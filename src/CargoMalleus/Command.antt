-- ===== src/CargoMalleus/Command.antt =====
-- tools/cargo-malleus/src/main.rs: the commands and the checkpoints of those to come.
use malleus_rtos.Base.{Bool, Option, none, some}
use malleus_rtos.Base.Text.{Text, codes}

-- Paths and names are those of the argument parser.
pub data Command : Type 0 where
  check : Text → Bool → Command
  analyze : Text → Command
  new_project : Text → Command
  build flash test inspect trace dump expand : Command

unfoldable pub checkpoint : Command → Option (Text × Text)
checkpoint (check manifest deny) = none
checkpoint (analyze manifest) = none
checkpoint (new_project name) =
    some (codes "2", codes "docs/ROADMAP.md#checkpoint-2--make-it-usable")
checkpoint build = some (codes "2", codes "docs/ROADMAP.md#checkpoint-2--make-it-usable")
checkpoint flash = some (codes "2", codes "docs/ROADMAP.md#checkpoint-2--make-it-usable")
checkpoint test = some (codes "2", codes "docs/ROADMAP.md#checkpoint-2--make-it-usable")
checkpoint dump = some (codes "3", codes "docs/ROADMAP.md#checkpoint-3--build-the-differentiator")
checkpoint expand = some (codes "3", codes "docs/ROADMAP.md#checkpoint-3--build-the-differentiator")
checkpoint inspect = some (codes "4", codes "docs/ROADMAP.md#checkpoint-4--production-platform")
checkpoint trace = some (codes "4", codes "docs/ROADMAP.md#checkpoint-4--production-platform")
