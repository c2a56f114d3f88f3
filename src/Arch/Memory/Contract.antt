-- ===== src/Arch/Memory/Contract.antt =====
-- What a memory protection unit promises of `install`, and that the implementation for hardware
-- without one keeps it.
use malleus_rtos.Base.{ℕ, ◌%◌, ◌^◌, ◌≤◌, ◌≡◌, refl, arith, true, List, [], ◌∷◌, All}
use malleus_rtos.Base.Lists.{length}
use malleus_rtos.Base.Results.{ok, err}
use malleus_rtos.Arch.Errors.{unsupported_region}
use malleus_rtos.Arch.Memory.{Region, MemoryProtection, install_none, no_protection}

-- Within the size and alignment of the hardware.
pub record Fits {S : Type 0} (m : MemoryProtection S) (r : Region) : Type 0 where
  pub large_enough : m.min_region_size ≤ r.size
  pub aligned : m.requires_power_of_two ≡ true → (k : ℕ) × (r.size ≡ 2 ^ k) × (r.base % 2 ^ k ≡ 0)

abbrev pub IsRepresentable : {S : Type 0} → MemoryProtection S → List Region → Type 0
IsRepresentable m rs = (length rs ≤ m.region_count) × All (Fits m) rs

-- `install` accepts the sets that can be represented, and answers any other with the error that
-- is documented.
pub record IsLawful {S : Type 0} (m : MemoryProtection S) : Type 0 where
  pub accepts : (rs : List Region) (s : S) → IsRepresentable m rs → (m.install rs s).1 ≡ ok tt
  pub refuses :
      (rs : List Region) (s : S)
      → (IsRepresentable m rs → ⊥)
      → (m.install rs s).1 ≡ err unsupported_region

no_region_fits : (r : Region) (rs : List Region) → length (r ∷ rs) ≤ 0 → ⊥
no_region_fits r rs h = omega arith

-- `NoProtection` keeps the contract of the trait: over any hardware state, it accepts exactly the
-- empty set, which is all that no region can represent, and answers every other set with the
-- error for unsupported regions.
pub no_protection-IsLawful : {S : Type 0} → IsLawful (no_protection {S = S})
unfolding no_protection install_none
no_protection-IsLawful {S = S} = record { accepts = accepts; refuses = refuses }
  where
    accepts :
        (rs : List Region) (s : S)
        → IsRepresentable (no_protection {S = S}) rs
        → install_none rs ≡ ok tt
    accepts [] s h = unfold install_none in refl
    accepts (r ∷ rs) s (few, fit) = absurd (no_region_fits r rs (unfold no_protection in few))

    refuses :
        (rs : List Region) (s : S)
        → (IsRepresentable (no_protection {S = S}) rs → ⊥)
        → install_none rs ≡ err unsupported_region
    refuses [] s h = absurd (h (unfold no_protection in (omega arith, tt)))
    refuses (r ∷ rs) s h = unfold install_none in refl
