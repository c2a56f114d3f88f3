-- ===== src/Manifest/Diagnostics/Display.antt =====
-- crates/malleus-manifest/src/validate.rs: how diagnostics and a report are printed.
use malleus_rtos.Base.{◌≡◌, refl, List, [], ◌∷◌, ◌++◌}
use malleus_rtos.Base.Text.{Text, codes}
use malleus_rtos.Manifest.Diagnostics.{Severity, warning, error, Code, Diagnostic}

unfoldable pub display_severity : Severity → Text
display_severity warning = codes "warning"
display_severity error = codes "error"

unfoldable pub code_text : Code → Text
code_text Code.m0001 = codes "M0001"
code_text Code.m0002 = codes "M0002"
code_text Code.m0003 = codes "M0003"
code_text Code.m0004 = codes "M0004"
code_text Code.m0005 = codes "M0005"
code_text Code.m0006 = codes "M0006"
code_text Code.m0007 = codes "M0007"
code_text Code.m0008 = codes "M0008"
code_text Code.m0009 = codes "M0009"
code_text Code.m0010 = codes "M0010"
code_text Code.m0011 = codes "M0011"
code_text Code.m0012 = codes "M0012"
code_text Code.m0013 = codes "M0013"
code_text Code.m0014 = codes "M0014"
code_text Code.m0015 = codes "M0015"
code_text Code.m0016 = codes "M0016"
code_text Code.m0017 = codes "M0017"
code_text Code.m0018 = codes "M0018"
code_text Code.m0019 = codes "M0019"
code_text Code.m0020 = codes "M0020"
code_text Code.m0021 = codes "M0021"
code_text Code.m0022 = codes "M0022"
code_text Code.m0023 = codes "M0023"
code_text Code.m0024 = codes "M0024"
code_text Code.m0025 = codes "M0025"
code_text Code.m0026 = codes "M0026"

unfoldable pub display_diagnostic : Diagnostic → Text
unfolding display_severity code_text
display_diagnostic d =
    display_severity d.severity
    ++ (codes "["
        ++ (code_text d.code
            ++ (codes "]: "
                ++ (d.message
                    ++ (codes "\n  --> "
                        ++ (d.location ++ (codes "\n  help: " ++ d.suggestion)))))))

unfoldable pub display_report : List Diagnostic → Text
unfolding display_diagnostic
display_report [] = []
display_report (d ∷ ds) = display_diagnostic d ++ (codes "\n\n" ++ display_report ds)

-- A finding as the tool prints it.
printed :
    display_report (
      record {
        severity = warning;
        code = Code.m0005;
        location = codes "motor";
        message = codes "shared";
        suggestion = codes "split";
      }
      ∷ [])
    ≡ codes "warning[M0005]: shared\n  --> motor\n  help: split\n\n"
unfolding display_report
printed = refl
