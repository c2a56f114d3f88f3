-- ===== src/Codegen.antt =====
-- crates/malleus-codegen and crates/malleus-trace: the artefacts that the generator produces, and
-- the identification of the streams that a device sends.
use malleus_rtos.Base.{
  ℕ, ◌≡◌, refl, sym, ap, ◌∙◌, Bool, true, false, List, [], ◌∷◌, Option, none, some, if◌then◌else◌,
}
use malleus_rtos.Base.Text.{Text, codes, text_eq}
use malleus_rtos.Base.Results.{some_inj}

pub data Artefact : Type 0 where
  task_table ipc_endpoints regions linker_script memory_report architecture_doc : Artefact

unfoldable pub filename : Artefact → Text
filename Artefact.task_table = codes "tasks.rs"
filename Artefact.ipc_endpoints = codes "ipc.rs"
filename Artefact.regions = codes "regions.rs"
filename Artefact.linker_script = codes "memory.x"
filename Artefact.memory_report = codes "layout.md"
filename Artefact.architecture_doc = codes "architecture.md"

unfoldable pub is_reviewed : Artefact → Bool
is_reviewed Artefact.memory_report = true
is_reviewed Artefact.architecture_doc = true
is_reviewed _ = false

abbrev pub all_artefacts : List Artefact
all_artefacts =
    Artefact.task_table ∷ Artefact.ipc_endpoints ∷ Artefact.regions ∷ Artefact.linker_script
    ∷ Artefact.memory_report ∷ Artefact.architecture_doc ∷ []

abbrev pub format_version : ℕ
format_version = 1

abbrev pub magic_bytes : List ℕ
magic_bytes = codes "MLRT"

pub data StreamKind : Type 0 where
  trace dump health : StreamKind

-- The discriminant, which goes on the wire.
unfoldable pub discriminant : StreamKind → ℕ
discriminant StreamKind.trace = 1
discriminant StreamKind.dump = 2
discriminant StreamKind.health = 3

-- The artefact of a file, where there is one.
abbrev artefact_of : Text → Option Artefact
artefact_of name =
    if text_eq name (codes "tasks.rs")
    then some Artefact.task_table
    else if text_eq name (codes "ipc.rs")
    then some Artefact.ipc_endpoints
    else if text_eq name (codes "regions.rs")
    then some Artefact.regions
    else if text_eq name (codes "memory.x")
    then some Artefact.linker_script
    else if text_eq name (codes "layout.md")
    then some Artefact.memory_report
    else if text_eq name (codes "architecture.md")
    then some Artefact.architecture_doc
    else none

artefact_of-filename : (a : Artefact) → artefact_of (filename a) ≡ some a
unfolding filename text_eq
artefact_of-filename Artefact.task_table = refl
artefact_of-filename Artefact.ipc_endpoints = refl
artefact_of-filename Artefact.regions = refl
artefact_of-filename Artefact.linker_script = refl
artefact_of-filename Artefact.memory_report = refl
artefact_of-filename Artefact.architecture_doc = refl

-- No two artefacts are written to the same file.
pub filename_inj : (a b : Artefact) → filename a ≡ filename b → a ≡ b
filename_inj a b h =
    some_inj (sym (artefact_of-filename a) ∙ ap artefact_of h ∙ artefact_of-filename b)
