-- ===== src/Manifest/Schema.antt =====
-- crates/malleus-manifest/src/lib.rs: the manifest as the TOML reader hands it over.
use malleus_rtos.Base.{ℕ, Bool, Option, List, find?}
use malleus_rtos.Base.Text.{Text, codes, text_eq}

pub record System : Type 0 where
  pub name : Text
  pub board : Text
  pub tick_rate : Text

-- The tick rate where the manifest gives none.
abbrev pub default_tick_rate : Text
default_tick_rate = codes "1MHz"

pub record Task : Type 0 where
  pub name : Text
  pub priority : ℕ
  pub stack : Text
  pub period : Option Text
  pub deadline : Option Text
  pub wcet : Option Text
  pub capabilities : List Text
  pub isolated : Bool

pub record Channel : Type 0 where
  pub name : Text
  pub from : Text
  pub to : Text
  pub capacity : ℕ
  pub overflow : Text

pub record Manifest : Type 0 where
  pub system : System
  pub tasks : List Task
  pub channels : List Channel

-- `Manifest::task`: the first task of that name.
unfoldable pub task : Manifest → Text → Option Task
task m name = find? (λ t. text_eq t.name name) m.tasks
