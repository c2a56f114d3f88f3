-- ===== src/CortexM/Startup/Loops.antt =====
-- What the two loops of the reset stub leave in memory.
use malleus_rtos.Base.{
  ℕ, zero, suc, ◌+◌, ◌*◌, ◌%◌, ◌^◌, ◌≤◌, ◌<◌, ◌≡◌, ◌≢◌, ◌⊎◌, inl, inr, refl, ap, ◌∙◌, arith, some,
  false, leb,
}
use malleus_rtos.CortexM.Startup.{Memory, store, copy_data, zero_bss}

-- A memory keeps the words of another outside the range from `from` up to `end`.
abbrev pub KeepsOutside : ℕ → ℕ → Memory → Memory → Type 0
KeepsOutside from end before after = (a : ℕ) → (a < from) ⊎ (end ≤ a) → after a ≡ before a

-- The range of `n` words is copied word by word, and nothing else changes.
pub record Copied (n from to end : ℕ) (before after : Memory) : Type 0 where
  pub words : (k : ℕ) → k < n → after (to + 4 * k) ≡ before (from + 4 * k)
  pub others : KeepsOutside to end before after

pub record Cleared (n at end : ℕ) (before after : Memory) : Type 0 where
  pub words : (k : ℕ) → k < n → after (at + 4 * k) ≡ 0
  pub others : KeepsOutside at end before after

pub store_same : (a v : ℕ) (m : Memory) → store a v m a ≡ v
unfolding store
store_same a v m = ground arith

pub store_other : (a b v : ℕ) (m : Memory) → b ≢ a → store a v m b ≡ m b
unfolding store
store_other a b v m h = ground arith

-- One round of each loop.
copy_data_done :
    (fuel from to : ℕ) (memory : Memory) → copy_data (suc fuel) from to to memory ≡ some memory
unfolding copy_data
copy_data_done fuel from to memory = ground arith

copy_data_round :
    (fuel from to end : ℕ) (memory : Memory)
    → to + 4 ≤ end
    → end < 2 ^ 32
    → from + 4 < 2 ^ 32
    → copy_data (suc fuel) from to end memory
      ≡ copy_data fuel (from + 4) (to + 4) end (store to (memory from) memory)
unfolding copy_data
copy_data_round fuel from to end memory h fits from_fits =
    let from_wrap : (from + 4) % 2 ^ 32 ≡ from + 4 = omega arith in
    let to_wrap : (to + 4) % 2 ^ 32 ≡ to + 4 = omega arith in
    let more : leb end to ≡ false = ground arith in rw (more, from_wrap, to_wrap) refl

zero_bss_done : (fuel at : ℕ) (memory : Memory) → zero_bss (suc fuel) at at memory ≡ some memory
unfolding zero_bss
zero_bss_done fuel at memory = ground arith

zero_bss_round :
    (fuel at end : ℕ) (memory : Memory)
    → at + 4 ≤ end
    → end < 2 ^ 32
    → zero_bss (suc fuel) at end memory ≡ zero_bss fuel (at + 4) end (store at 0 memory)
unfolding zero_bss
zero_bss_round fuel at end memory h fits =
    let wrap : (at + 4) % 2 ^ 32 ≡ at + 4 = omega arith in
    let more : leb end at ≡ false = ground arith in rw (more, wrap) refl

word_of_copy :
    (n from to end : ℕ) (memory after : Memory)
    → to + 4 * suc n ≡ end
    → (from + 4 * suc n ≤ to) ⊎ (end ≤ from)
    → Copied n (from + 4) (to + 4) end (store to (memory from) memory) after
    → (k : ℕ) → k < suc n
    → after (to + 4 * k) ≡ memory (from + 4 * k)
word_of_copy n from to end memory after span apart c zero below =
    ap after (omega arith)
    ∙ c.others to (inl (omega arith))
    ∙ store_same to (memory from) memory
    ∙ ap memory (omega arith)
word_of_copy n from to end memory after span apart c (suc k) below =
    ap after (omega arith)
    ∙ c.words k (omega arith)
    ∙ store_other to (from + 4 + 4 * k) (memory from) memory
        (λ e. elim apart [ inl before ↦ omega arith | inr beyond ↦ omega arith ])
    ∙ ap memory (omega arith)

-- With more fuel than words, the copy ends.
pub copy_data-Copied :
    (n fuel from to end : ℕ) (memory : Memory)
    → n < fuel
    → to + 4 * n ≡ end
    → end < 2 ^ 32
    → from + 4 * n < 2 ^ 32
    → (from + 4 * n ≤ to) ⊎ (end ≤ from)
    → (after : Memory) × (copy_data fuel from to end memory ≡ some after)
      × Copied n from to end memory after
copy_data-Copied n zero from to end memory h span fits from_fits apart = absurd (omega arith)
copy_data-Copied zero (suc fuel) from to end memory h span fits from_fits apart =
    let same : end ≡ to = omega arith in
    (
      memory,
      ap (λ (x : ℕ). copy_data (suc fuel) from to x memory) same
          ∙ copy_data_done fuel from to memory,
      record { words = λ k below. absurd (omega arith); others = λ a out. refl },
    )
copy_data-Copied (suc n) (suc fuel) from to end memory h span fits from_fits apart =
    let next = store to (memory from) memory in
    let (after, e, copied) =
      copy_data-Copied n fuel (from + 4) (to + 4) end next (omega arith) (omega arith) fits
        (omega arith) (omega arith) in
    (
      after,
      copy_data_round fuel from to end memory (omega arith) fits (omega arith) ∙ e,
      record {
        words = word_of_copy n from to end memory after span apart copied;
        others = λ a out.
            copied.others a (omega arith)
            ∙ store_other to a (memory from) memory (λ e. omega arith);
      },
    )

-- And so does the clearing.
pub zero_bss-Cleared :
    (n fuel at end : ℕ) (memory : Memory)
    → n < fuel
    → at + 4 * n ≡ end
    → end < 2 ^ 32
    → (after : Memory) × (zero_bss fuel at end memory ≡ some after) × Cleared n at end memory after
zero_bss-Cleared n zero at end memory h span fits = absurd (omega arith)
zero_bss-Cleared zero (suc fuel) at end memory h span fits =
    let same : end ≡ at = omega arith in
    (
      memory,
      ap (λ (x : ℕ). zero_bss (suc fuel) at x memory) same ∙ zero_bss_done fuel at memory,
      record { words = λ k below. absurd (omega arith); others = λ a out. refl },
    )
zero_bss-Cleared (suc n) (suc fuel) at end memory h span fits =
    let (after, e, cleared) =
      zero_bss-Cleared n fuel (at + 4) end (store at 0 memory) (omega arith) (omega arith) fits in
    (
      after,
      zero_bss_round fuel at end memory (omega arith) fits ∙ e,
      record {
        words = word_of_clearing n at end memory after span cleared;
        others =
            λ a out. cleared.others a (omega arith) ∙ store_other at a 0 memory (λ e. omega arith);
      },
    )
  where
    word_of_clearing :
        (n at end : ℕ) (memory after : Memory)
        → at + 4 * suc n ≡ end
        → Cleared n (at + 4) end (store at 0 memory) after
        → (k : ℕ) → k < suc n
        → after (at + 4 * k) ≡ 0
    word_of_clearing n at end memory after span c zero below =
        ap after (omega arith) ∙ c.others at (inl (omega arith)) ∙ store_same at 0 memory
    word_of_clearing n at end memory after span c (suc k) below =
        ap after (omega arith) ∙ c.words k (omega arith)
