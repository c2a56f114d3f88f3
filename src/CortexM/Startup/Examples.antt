-- ===== src/CortexM/Startup/Examples.antt =====
-- Tests and instances of the theorems on the reset stub.
use malleus_rtos.Base.{◌≡◌, inl, refl, arith, some, none, ◌==◌, if◌then◌else◌}
use malleus_rtos.CortexM.Startup.{Memory, Symbols, start, reset, data_pattern, evidence_bss_failed}
use malleus_rtos.CortexM.Startup.Ready.{IsLinked, HasSentinels, IsReady, reset-IsReady}

-- Two words of `.data`, whose image is in Flash, and three of `.bss`.
abbrev symbols : Symbols
symbols = record {
  sidata = 0x08001000;
  sdata = 0x20000000;
  edata = 0x20000008;
  sbss = 0x20000008;
  ebss = 0x20000014;
  data_sentinel = 0x20000004;
  bss_sentinel = 0x20000008;
  boot_evidence = 0x20000014;
  capture_state = 0x20000018;
}

abbrev power_on : Memory
power_on a = if a == 0x08001004 then data_pattern else a

symbols-IsLinked : IsLinked symbols 2 3
symbols-IsLinked = record {
  data_span = refl;
  bss_span = refl;
  order = omega arith;
  fits = omega arith;
  image_fits = omega arith;
  image_apart = inl (omega arith);
  state_behind = omega arith;
  state_apart = inl (omega arith);
  evidence_behind = omega arith;
  distinct = omega arith;
}

power_on-HasSentinels : HasSentinels symbols 2 3 power_on
power_on-HasSentinels = record {
  data_index = 1;
  data_within = omega arith;
  data_place = refl;
  data_image = refl;
  bss_index = 0;
  bss_within = omega arith;
  bss_place = refl;
}

-- A copy with too little fuel, and an entry that finds `.bss` untouched.
starved : reset 2 symbols power_on ≡ none
unfolding reset
starved = refl

bss_reported : start symbols (λ a. data_pattern) 0x20000014 ≡ evidence_bss_failed
unfolding start
bss_reported = refl

reset-IsReady_example :
    (after : Memory) × (reset 4 symbols power_on ≡ some after) × IsReady symbols 2 3 power_on after
reset-IsReady_example =
    reset-IsReady 4 symbols 2 3 power_on symbols-IsLinked power_on-HasSentinels (omega arith)
      (omega arith)
