-- ===== src/Manifest/Diagnostics.antt =====
-- crates/malleus-manifest/src/validate.rs: diagnostics and the report that collects them.
-- A check that pushes onto the report is a function that returns what it pushes, in order.
pub mod Display
use malleus_rtos.Base.{ℕ, suc, ◌+◌, ◌≡◌, ◌↔◌, refl, arith, Bool, true, false, ◌==◌, if◌then◌else◌}
use malleus_rtos.Base.{List, [], ◌∷◌, ◌++◌}
use malleus_rtos.Base.Text.{Text}
use malleus_rtos.Base.Iff.{iff_trans, iff_and, iff_refl}

pub data Severity : Type 0 where
  warning : Severity
  error : Severity

-- The stable codes, "M0001" to "M0026".
pub data Code : Type 0 where
  m0001 m0002 m0003 m0004 m0005 m0006 m0007 m0008 m0009 m0010 m0011 m0012 m0013 : Code
  m0014 m0015 m0016 m0017 m0018 m0019 m0020 m0021 m0022 m0023 m0024 m0025 m0026 : Code

pub record Diagnostic : Type 0 where
  pub severity : Severity
  pub code : Code
  pub location : Text
  pub message : Text
  pub suggestion : Text

unfoldable pub is_error : Diagnostic → Bool
is_error d = elim d.severity [ error ↦ true | warning ↦ false ]

unfoldable pub error_count : List Diagnostic → ℕ
unfolding is_error
error_count [] = 0
error_count (d ∷ ds) = if is_error d then suc (error_count ds) else error_count ds

unfoldable pub warning_count : List Diagnostic → ℕ
unfolding is_error
warning_count [] = 0
warning_count (d ∷ ds) = if is_error d then warning_count ds else suc (warning_count ds)

unfoldable pub is_ok : List Diagnostic → Bool
unfolding error_count
is_ok ds = error_count ds == 0

-- A push under a condition.
abbrev pub when : Bool → Diagnostic → List Diagnostic
when true d = d ∷ []
when false d = []

pub error_count-append :
    (ds es : List Diagnostic) → error_count (ds ++ es) ≡ error_count ds + error_count es
unfolding error_count
error_count-append [] es = omega arith
error_count-append (d ∷ ds) es = ground (arith, error_count-append ds es)

-- No error was pushed.
abbrev pub Clean : List Diagnostic → Type 0
Clean ds = error_count ds ≡ 0

pub Clean-append : (ds es : List Diagnostic) → Clean (ds ++ es) ↔ (Clean ds × Clean es)
Clean-append ds es =
    ((λ h. omega (arith, error_count-append ds es)), (λ h. omega (arith, error_count-append ds es)))

-- Two lists one after the other have no error exactly when neither has.
pub Clean-join :
    (ds es : List Diagnostic) {A B : Type 0}
    → Clean ds ↔ A
    → Clean es ↔ B
    → Clean (ds ++ es) ↔ (A × B)
Clean-join ds es first second = iff_trans (Clean-append ds es) (iff_and first second)

-- A guarded error is absent exactly when its condition is false.
pub Clean-when_error :
    (b : Bool) (d : Diagnostic) → d.severity ≡ error → Clean (when b d) ↔ (b ≡ false)
unfolding error_count
Clean-when_error true d e = ground arith
Clean-when_error false d e = ground arith

-- A guarded warning is never an error.
pub Clean-when_warning : (b : Bool) (d : Diagnostic) → d.severity ≡ warning → Clean (when b d)
unfolding error_count
Clean-when_warning true d e = ground arith
Clean-when_warning false d e = refl

pub Clean-nil : Clean []
unfolding error_count
Clean-nil = refl

-- A guarded error, or a guarded warning, ahead of other findings.
pub Clean-guard_error :
    (b : Bool) (d : Diagnostic) (rest : List Diagnostic)
    → d.severity ≡ error
    → Clean (when b d ++ rest) ↔ ((b ≡ false) × Clean rest)
Clean-guard_error b d rest e =
    iff_trans (Clean-append (when b d) rest) (iff_and (Clean-when_error b d e) iff_refl)

pub Clean-guard_warning :
    (b : Bool) (d : Diagnostic) (rest : List Diagnostic)
    → d.severity ≡ warning
    → Clean (when b d ++ rest) ↔ Clean rest
Clean-guard_warning b d rest e =
    iff_trans (Clean-append (when b d) rest) ((λ p. p.1), (λ h. (Clean-when_warning b d e, h)))
