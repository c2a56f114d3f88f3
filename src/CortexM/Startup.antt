-- ===== src/CortexM/Startup.antt =====
-- crates/malleus-arch-cortex-m/src/startup.rs: the reset stub, which prepares the memory for Rust,
-- and the entry that checks it. A memory gives the word at each word-aligned byte address; the
-- symbols of the linker script are a parameter. The loops run on fuel, one unit for each test.
pub mod Loops
pub mod Ready
mod Examples
use malleus_rtos.Base.{
  ℕ, zero, suc, ◌+◌, ◌%◌, ◌^◌, leb, ◌==◌, if◌then◌else◌, Bool, true, false, Option, none, some,
}
use malleus_rtos.Base.Options.{◌>>=◌}

abbrev pub data_pattern : ℕ
data_pattern = 0x44415441

abbrev pub evidence_ok : ℕ
evidence_ok = 0x4d414c32

abbrev pub evidence_data_failed : ℕ
evidence_data_failed = 0x44415441

abbrev pub evidence_bss_failed : ℕ
evidence_bss_failed = 0x42535321

abbrev pub evidence_both_failed : ℕ
evidence_both_failed = 0x424f5448

-- What the capture state holds until the memory is ready.
abbrev pub capture_reset : ℕ
capture_reset = 0x52535430

abbrev pub capture_armed : ℕ
capture_armed = 0x41524d44

abbrev pub Memory : Type 0
Memory = ℕ → ℕ

-- A store of one word.
unfoldable pub store : ℕ → ℕ → Memory → Memory
store address value memory a = if a == address then value else memory a

-- The addresses that the linker fixes: the image of `.data` and where it is copied to, `.bss`, and
-- the variables of the startup code.
pub record Symbols : Type 0 where
  pub sidata : ℕ
  pub sdata : ℕ
  pub edata : ℕ
  pub sbss : ℕ
  pub ebss : ℕ
  pub data_sentinel : ℕ
  pub bss_sentinel : ℕ
  pub boot_evidence : ℕ
  pub capture_state : ℕ

-- The loop at `.Lcopy_data`, with its three registers.
unfoldable pub copy_data : ℕ → ℕ → ℕ → ℕ → Memory → Option Memory
unfolding store
copy_data zero from to end memory = none
copy_data (suc fuel) from to end memory =
    let rest =
      copy_data fuel ((from + 4) % 2 ^ 32) ((to + 4) % 2 ^ 32) end
        (store to (memory from) memory) in
    if leb end to then some memory else rest

-- The loop at `.Lzero_bss`.
unfoldable pub zero_bss : ℕ → ℕ → ℕ → Memory → Option Memory
unfolding store
zero_bss zero at end memory = none
zero_bss (suc fuel) at end memory =
    let rest = zero_bss fuel ((at + 4) % 2 ^ 32) end (store at 0 memory) in
    if leb end at then some memory else rest

-- The word that reports which of the two sections was found ready.
unfoldable pub evidence : Bool → Bool → ℕ
evidence true true = evidence_ok
evidence false true = evidence_data_failed
evidence true false = evidence_bss_failed
evidence false false = evidence_both_failed

-- What the entry finds when it reads the two sentinels.
unfoldable pub check_sections : Symbols → Memory → ℕ
unfolding evidence
check_sections s memory =
    let data_ok = memory s.data_sentinel == data_pattern in
    let bss_ok = memory s.bss_sentinel == 0 in evidence data_ok bss_ok

-- The store of `fault.rs` that lets the exception assembly enter Rust.
unfoldable pub arm_capture : Symbols → Memory → Memory
unfolding store
arm_capture s memory = store s.capture_state capture_armed memory

-- `__malleus_start` on a Cortex-M7, up to the loop in which it stays.
unfoldable pub start : Symbols → Memory → Memory
unfolding arm_capture check_sections
start s memory = arm_capture s (store s.boot_evidence (check_sections s memory) memory)

-- `Reset`, up to that loop; nothing where the fuel runs out.
unfoldable pub reset : ℕ → Symbols → Memory → Option Memory
unfolding copy_data zero_bss start
reset fuel s memory = do
  copied ← copy_data fuel s.sidata s.sdata s.edata (store s.capture_state capture_reset memory)
  cleared ← zero_bss fuel s.sbss s.ebss copied
  some (start s cleared)
