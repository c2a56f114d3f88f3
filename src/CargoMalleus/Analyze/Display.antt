-- ===== src/CargoMalleus/Analyze/Display.antt =====
-- tools/cargo-malleus/src/analyze.rs: the texts of the report's columns, before they are padded.
use malleus_rtos.Base.{ℕ, ◌≡◌, refl, ◌++◌, Option, none, some}
use malleus_rtos.Base.Text.{Text, codes}
use malleus_rtos.Base.Decimal.{print_decimal}
use malleus_rtos.Analyzer.ResponseTime.{Verdict, pass, fail, unknown, reason_text}

unfoldable pub optional : Option ℕ → Text
optional none = codes "-"
optional (some t) = print_decimal t

unfoldable pub ticks : ℕ → Text
ticks t = print_decimal t ++ codes "t"

unfoldable pub verdict_text : Verdict → Text
unfolding ticks reason_text
verdict_text (pass response slack) =
    codes "PASS   response " ++ (ticks response ++ (codes ", slack " ++ ticks slack))
verdict_text (fail response overrun) =
    codes "FAIL   response " ++ (ticks response ++ (codes ", over by " ++ ticks overrun))
verdict_text (unknown reason) = codes "UNKNOWN  " ++ reason_text reason

printed_pass : verdict_text (pass 40 160) ≡ codes "PASS   response 40t, slack 160t"
unfolding verdict_text print_decimal
printed_pass = refl
