-- ===== src/Analyzer/ResponseTime/Recurrence.antt =====
-- The recurrence R = base + Σ ⌈R / T⌉ · C over the plain numbers, and the saturating loop that
-- computes it.
use native.Mathlib.Nat.{mul-le-mul_right}
use malleus_rtos.Base.{ℕ, ◌+◌, ◌*◌, ◌≤◌, ◌<◌, ◌≡◌, min, arith, ◌∙◌, ap}
use malleus_rtos.Base.{List, [], ◌∷◌, All, u64_max, div_ceil}
use malleus_rtos.Base.Word.{div_ceil_mono}
use malleus_rtos.Analyzer.ResponseTime.{Interferer, add_interference}

-- The work that the interferers demand in a window of `r` ticks.
abbrev pub interference : List Interferer → ℕ → ℕ
interference [] r = 0
interference (i ∷ is) r = div_ceil r i.period * i.wcet + interference is r

-- The right-hand side of the recurrence.
abbrev pub demand : ℕ → List Interferer → ℕ → ℕ
demand base is r = base + interference is r

-- Every interferer has a positive period.
abbrev pub Positive : List Interferer → Type 0
Positive = All (λ i. 0 < i.period)

-- The least window that the demand fits in.
pub record IsLeastSolution (base : ℕ) (is : List Interferer) (r : ℕ) : Type 0 where
  pub solves : demand base is r ≡ r
  pub least : (s : ℕ) → demand base is s ≤ s → r ≤ s

interference_mono :
    (is : List Interferer) (r s : ℕ) → Positive is → r ≤ s → interference is r ≤ interference is s
interference_mono [] r s pos h = omega arith
interference_mono (i ∷ is) r s (p, pos) h = omega (
  arith,
  mul-le-mul_right i.wcet (div_ceil_mono r s i.period p h),
  interference_mono is r s pos h,
)

-- A longer window demands no less.
pub demand_mono :
    (base : ℕ) (is : List Interferer) (r s : ℕ)
    → Positive is
    → r ≤ s
    → demand base is r ≤ demand base is s
demand_mono base is r s pos h = omega (arith, interference_mono is r s pos h)

-- The saturating loop computes the exact sum, cut at the largest `u64`.
pub add_interference_exact :
    (is : List Interferer) (r next : ℕ)
    → add_interference is r (min next u64_max) ≡ min (next + interference is r) u64_max
unfolding add_interference
add_interference_exact [] r next = omega arith
add_interference_exact (i ∷ is) r next =
    let cost = div_ceil r i.period * i.wcet in
    let merged : min (min next u64_max + min (div_ceil r i.period * i.wcet) u64_max) u64_max
        ≡ min (next + cost) u64_max =
      omega arith in
    rw (merged, add_interference_exact is r (next + cost)) (omega arith)

-- The next value of the iteration.
pub next-demand :
    (is : List Interferer) (base r : ℕ)
    → base ≤ u64_max
    → add_interference is r base ≡ min (demand base is r) u64_max
next-demand is base r h =
    let cut : base ≡ min base u64_max = omega arith in
    ap (add_interference is r) cut ∙ add_interference_exact is r base
