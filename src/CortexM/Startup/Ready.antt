-- ===== src/CortexM/Startup/Ready.antt =====
-- What the reset stub and the entry leave to the kernel: initialised memory, the report of it, and
-- an armed fault capture.
use malleus_rtos.Base.{
  ℕ, ◌+◌, ◌*◌, ◌^◌, ◌≤◌, ◌<◌, ◌≡◌, ◌≢◌, ◌↔◌, ◌⊎◌, inl, inr, refl, sym, ap, ◌∙◌, arith, some, ◌==◌,
}
use malleus_rtos.CortexM.Startup.{
  Memory, Symbols, store, evidence, check_sections, start, reset, data_pattern, evidence_ok,
  capture_armed, capture_reset, copy_data, zero_bss,
}
use malleus_rtos.CortexM.Startup.Loops.{
  Copied, Cleared, store_same, store_other, copy_data-Copied, zero_bss-Cleared,
}

-- How the linker script lays the memory out: whole words, the sections in order with the
-- variables that survive a reset behind them, and the image of `.data` elsewhere.
pub record IsLinked (s : Symbols) (data_words bss_words : ℕ) : Type 0 where
  pub data_span : s.sdata + 4 * data_words ≡ s.edata
  pub bss_span : s.sbss + 4 * bss_words ≡ s.ebss
  pub order : s.edata ≤ s.sbss
  pub fits : s.ebss < 2 ^ 32
  pub image_fits : s.sidata + 4 * data_words < 2 ^ 32
  pub image_apart : (s.sidata + 4 * data_words ≤ s.sdata) ⊎ (s.edata ≤ s.sidata)
  pub state_behind : s.ebss ≤ s.capture_state
  pub state_apart : (s.sidata + 4 * data_words ≤ s.capture_state) ⊎ (s.capture_state < s.sidata)
  pub evidence_behind : s.ebss ≤ s.boot_evidence
  pub distinct : s.boot_evidence ≢ s.capture_state

-- Where the two words stand that the entry checks.
pub record HasSentinels (s : Symbols) (data_words bss_words : ℕ) (memory : Memory) : Type 0 where
  pub data_index : ℕ
  pub data_within : data_index < data_words
  pub data_place : s.sdata + 4 * data_index ≡ s.data_sentinel
  pub data_image : memory (s.sidata + 4 * data_index) ≡ data_pattern
  pub bss_index : ℕ
  pub bss_within : bss_index < bss_words
  pub bss_place : s.sbss + 4 * bss_index ≡ s.bss_sentinel

-- The memory that the kernel may rely on.
pub record IsReady (s : Symbols) (data_words bss_words : ℕ) (before after : Memory) : Type 0 where
  pub initialised : (k : ℕ) → k < data_words → after (s.sdata + 4 * k) ≡ before (s.sidata + 4 * k)
  pub zeroed : (k : ℕ) → k < bss_words → after (s.sbss + 4 * k) ≡ 0
  pub reported : after s.boot_evidence ≡ evidence_ok
  pub armed : after s.capture_state ≡ capture_armed
  pub others :
      (a : ℕ)
      → (a < s.sdata) ⊎ (s.ebss ≤ a)
      → a ≢ s.boot_evidence
      → a ≢ s.capture_state
      → after a ≡ before a

-- The memory that `start` arms.
abbrev reported_memory : Symbols → Memory → Memory
reported_memory s m = store s.boot_evidence (check_sections s m) m

start_state : (s : Symbols) (m : Memory) → start s m s.capture_state ≡ capture_armed
unfolding start
start_state s m = store_same s.capture_state capture_armed (reported_memory s m)

start_evidence :
    (s : Symbols) (m : Memory)
    → s.boot_evidence ≢ s.capture_state
    → start s m s.boot_evidence ≡ check_sections s m
unfolding start
start_evidence s m apart =
    store_other s.capture_state s.boot_evidence capture_armed (reported_memory s m) apart
    ∙ store_same s.boot_evidence (check_sections s m) m

start_other :
    (s : Symbols) (m : Memory) (a : ℕ)
    → a ≢ s.boot_evidence
    → a ≢ s.capture_state
    → start s m a ≡ m a
unfolding start
start_other s m a e c =
    store_other s.capture_state a capture_armed (reported_memory s m) c
    ∙ store_other s.boot_evidence a (check_sections s m) m e

reset-eq-some :
    (fuel : ℕ) (s : Symbols) (memory copied cleared : Memory)
    → copy_data fuel s.sidata s.sdata s.edata (store s.capture_state capture_reset memory)
      ≡ some copied
    → zero_bss fuel s.sbss s.ebss copied ≡ some cleared
    → reset fuel s memory ≡ some (start s cleared)
unfolding reset
reset-eq-some fuel s memory copied cleared c z = rw (c, z) refl

evidence-ok_iff :
    (d b : ℕ)
    → (evidence (d == data_pattern) (b == 0) ≡ evidence_ok) ↔ ((d ≡ data_pattern) × (b ≡ 0))
unfolding evidence
evidence-ok_iff d b = ((λ h. ground arith), (λ (hd, hb). rw (hd, hb) refl))

check_sections_iff :
    (s : Symbols) (m : Memory)
    → (check_sections s m ≡ evidence_ok)
      ↔ ((m s.data_sentinel ≡ data_pattern) × (m s.bss_sentinel ≡ 0))
unfolding check_sections
check_sections_iff s m = evidence-ok_iff (m s.data_sentinel) (m s.bss_sentinel)

-- The cleared memory against the one before the reset.
data_after_clearing :
    (s : Symbols) (dw bw : ℕ) (memory copied cleared : Memory)
    → IsLinked s dw bw
    → Copied dw s.sidata s.sdata s.edata (store s.capture_state capture_reset memory) copied
    → Cleared bw s.sbss s.ebss copied cleared
    → (k : ℕ) → k < dw
    → cleared (s.sdata + 4 * k) ≡ memory (s.sidata + 4 * k)
data_after_clearing s dw bw memory copied cleared l c z k below =
    z.others (s.sdata + 4 * k) (inl (omega arith))
    ∙ c.words k below
    ∙ store_other s.capture_state (s.sidata + 4 * k) capture_reset memory
        (λ e. elim l.state_apart [ inl above ↦ omega arith | inr under ↦ omega arith ])

others_after_clearing :
    (s : Symbols) (dw bw : ℕ) (memory copied cleared : Memory)
    → IsLinked s dw bw
    → Copied dw s.sidata s.sdata s.edata (store s.capture_state capture_reset memory) copied
    → Cleared bw s.sbss s.ebss copied cleared
    → (a : ℕ) → (a < s.sdata) ⊎ (s.ebss ≤ a)
    → a ≢ s.capture_state
    → cleared a ≡ memory a
others_after_clearing s dw bw memory copied cleared l c z a out apart =
    z.others a (omega arith)
    ∙ c.others a (omega arith)
    ∙ store_other s.capture_state a capture_reset memory apart

start-IsReady :
    (s : Symbols) (dw bw : ℕ) (memory copied cleared : Memory)
    → IsLinked s dw bw
    → HasSentinels s dw bw memory
    → Copied dw s.sidata s.sdata s.edata (store s.capture_state capture_reset memory) copied
    → Cleared bw s.sbss s.ebss copied cleared
    → IsReady s dw bw memory (start s cleared)
start-IsReady s dw bw memory copied cleared l p c z =
    let words = data_after_clearing s dw bw memory copied cleared l c z in
    let sentinel : cleared s.data_sentinel ≡ data_pattern =
      ap cleared (sym p.data_place) ∙ words p.data_index p.data_within ∙ p.data_image in
    let blank : cleared s.bss_sentinel ≡ 0 =
      ap cleared (sym p.bss_place) ∙ z.words p.bss_index p.bss_within in
    record {
      initialised = λ k below.
          start_other s cleared (s.sdata + 4 * k) (λ e. omega arith) (λ e. omega arith)
          ∙ words k below;
      zeroed = λ k below.
          start_other s cleared (s.sbss + 4 * k) (λ e. omega arith) (λ e. omega arith)
          ∙ z.words k below;
      reported =
          start_evidence s cleared l.distinct ∙ (check_sections_iff s cleared).1 (sentinel, blank);
      armed = start_state s cleared;
      others = λ a out e apart.
          start_other s cleared a e apart
          ∙ others_after_clearing s dw bw memory copied cleared l c z a out apart;
    }

-- The reset reaches the kernel with its memory ready: for a layout as that of the linker
-- script, with an image whose sentinel is intact and more fuel than words in either section, both
-- loops end; every word of `.data` is that of its image, every word of `.bss` is zero, the boot
-- report says so, the fault capture is armed, and no word outside the sections is touched but the
-- report and the capture state.
pub reset-IsReady :
    (fuel : ℕ) (s : Symbols) (data_words bss_words : ℕ) (memory : Memory)
    → IsLinked s data_words bss_words
    → HasSentinels s data_words bss_words memory
    → data_words < fuel
    → bss_words < fuel
    → (after : Memory) × (reset fuel s memory ≡ some after)
      × IsReady s data_words bss_words memory after
reset-IsReady fuel s dw bw memory l p more_data more_bss =
    let marked = store s.capture_state capture_reset memory in
    let (copied, ec, c) =
      copy_data-Copied dw fuel s.sidata s.sdata s.edata marked more_data l.data_span (omega arith)
        l.image_fits l.image_apart in
    let (cleared, ez, z) =
      zero_bss-Cleared bw fuel s.sbss s.ebss copied more_bss l.bss_span l.fits in
    (
      start s cleared,
      reset-eq-some fuel s memory copied cleared ec ez,
      start-IsReady s dw bw memory copied cleared l p c z,
    )

-- The boot report is honest: whatever the memory holds when Rust is entered, the report is that
-- all is well exactly when the sentinel of `.data` holds its pattern and that of `.bss` is zero.
pub start-reported_iff :
    (s : Symbols) (memory : Memory)
    → s.boot_evidence ≢ s.capture_state
    → (start s memory s.boot_evidence ≡ evidence_ok)
      ↔ ((memory s.data_sentinel ≡ data_pattern) × (memory s.bss_sentinel ≡ 0))
start-reported_iff s memory apart = (
  (λ e. (check_sections_iff s memory).0 (sym (start_evidence s memory apart) ∙ e)),
  (λ h. start_evidence s memory apart ∙ (check_sections_iff s memory).1 h),
)
