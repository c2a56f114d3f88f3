-- ===== src/Arch/Memory.antt =====
-- crates/malleus-arch/src/memory.rs: regions and permissions, what a memory protection unit offers,
-- and the implementation for hardware that has none. `S` is the state of the hardware.
pub mod Contract
use malleus_rtos.Base.{ℕ, Bool, true, false, List, [], ◌∷◌}
use malleus_rtos.Base.Results.{Result, ok, err}
use malleus_rtos.Arch.Errors.{ArchError, unsupported_region}

pub record Permissions : Type 0 where
  pub read : Bool
  pub write : Bool
  pub execute : Bool
  pub device : Bool

abbrev pub ro : Permissions
ro = record { read = true; write = false; execute = false; device = false }

abbrev pub rw_data : Permissions
rw_data = record { read = true; write = true; execute = false; device = false }

abbrev pub rx : Permissions
rx = record { read = true; write = false; execute = true; device = false }

abbrev pub mmio : Permissions
mmio = record { read = true; write = true; execute = false; device = true }

pub record Region : Type 0 where
  pub base : ℕ
  pub size : ℕ
  pub permissions : Permissions

-- The trait, with the state of the hardware before and after.
pub record MemoryProtection (S : Type 0) : Type 0 where
  pub region_count : ℕ
  pub requires_power_of_two : Bool
  pub min_region_size : ℕ
  pub enable : S → S
  pub disable : S → S
  pub install : List Region → S → S × Result ArchError Unit

-- The result of `NoProtection::install`.
unfoldable pub install_none : List Region → Result ArchError Unit
install_none [] = ok tt
install_none (r ∷ rs) = err unsupported_region

unfoldable pub no_protection : {S : Type 0} → MemoryProtection S
unfolding install_none
no_protection = record {
  region_count = 0;
  requires_power_of_two = false;
  min_region_size = 0;
  enable = λ s. s;
  disable = λ s. s;
  install = λ regions s. (s, install_none regions);
}
