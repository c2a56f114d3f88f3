-- ===== src/Dispatch/Periodic.antt =====
-- Tasks whose jobs come at every multiple of the period, after an offset.
use native.Mathlib.Decide.{dec_lt}
use native.Mathlib.Nat.{mul-le-mul_right}
use malleus_rtos.Base.{
  ℕ, suc, ◌+◌, ◌*◌, ◌/◌, ◌%◌, ◌≤◌, ◌<◌, ◌≡◌, sym, ap, ◌∙◌, arith, ◌==◌, if◌then◌else◌, some,
}
use malleus_rtos.Base.Results.{some_inj}
use malleus_rtos.Analyzer.ResponseTime.{TaskTiming}
use malleus_rtos.Dispatch.{Activity, Conforms}
use malleus_rtos.Dispatch.Synchronous.{Synchronous}

abbrev pub periodic : TaskTiming → ℕ → ℕ → ℕ → Activity
periodic x period offset wcet = record {
  task = x;
  work = λ t. if t % period == offset then wcet else 0;
}

quotient_grows : (q r p : ℕ) → q * p < r * p → q * p + p ≤ r * p
quotient_grows q r p h = elim (dec_lt q r) [
  | yes less ↦ omega (arith, mul-le-mul_right {m = suc q} {n = r} p less)
  | no not_less ↦ absurd (omega (arith, mul-le-mul_right {m = r} {n = q} p (omega arith)))
]

one_period : (t u p o : ℕ) → t % p ≡ o → u % p ≡ o → t < u → t + p ≤ u
one_period t u p o ht hu h =
    let left : t ≡ t / p * p + o = grind arith in
    let right : u ≡ u / p * p + o = grind arith in
    omega (arith, quotient_grows (t / p) (u / p) p (omega arith))

released_then : (t p o w : ℕ) → 0 < (if t % p == o then w else 0) → t % p ≡ o
released_then t p o w h = ground arith

-- Such a task conforms to its declarations.
pub periodic-Conforms :
    (x : TaskTiming) (p o w : ℕ) → x.period ≡ some p → x.wcet ≡ some w → Conforms (periodic x p o w)
periodic-Conforms x p o w hp hw = record {
  spaced = λ p' hp' t u ht hu h.
      let same : p' ≡ p = some_inj (sym hp' ∙ hp) in
      omega (arith, one_period t u p o (released_then t p o w ht) (released_then u p o w hu) h);
  within = λ w' hw' t. let same : w' ≡ w = some_inj (sym hw' ∙ hw) in ground arith;
}

-- Without an offset it is one of those that are released together.
pub periodic-Synchronous :
    (x : TaskTiming) (p w : ℕ)
    → x.period ≡ some p
    → x.wcet ≡ some w
    → Synchronous (periodic x p 0 w)
periodic-Synchronous x p w hp hw p' w' hp' hw' t =
    let same_period : p ≡ p' = some_inj (sym hp ∙ hp') in
    let same_wcet : w ≡ w' = some_inj (sym hw ∙ hw') in
    ap (λ (q : ℕ). if t % q == 0 then w else 0) same_period
    ∙ ap (λ (v : ℕ). if t % p' == 0 then v else 0) same_wcet
