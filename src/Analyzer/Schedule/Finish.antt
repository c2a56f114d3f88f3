-- ===== src/Analyzer/Schedule/Finish.antt =====
-- The tick at which the simulated processor has done the work of the task.
use native.Mathlib.Decide.{dec_lt}
use native.Mathlib.Nat.{zero-add, suc-add}
use mathlib.Core.Path.{subst}
use malleus_rtos.Base.{
  ℕ, zero, suc, ◌+◌, ◌-◌, ◌≤◌, ◌<◌, ◌≡◌, ◌↔◌, refl, sym, ap, ◌∙◌, arith, List, [], ◌∷◌, ◌⊎◌, inl,
  inr, ◌*◌, div_ceil,
}
use malleus_rtos.Base.Word.{div_ceil_least}
use malleus_rtos.Analyzer.ResponseTime.{Interferer}
use malleus_rtos.Analyzer.ResponseTime.Recurrence.{interference, demand, Positive, IsLeastSolution}
use malleus_rtos.Analyzer.Schedule.{Backlog, Cpu, release, serve, run}
use malleus_rtos.Analyzer.Schedule.Waiting.{
  sources, waiting, idle-sources, idle-waiting, release-sources, serve-sources, release-waiting,
  serve-busy, serve-free,
}

-- All the work that was released and not served.
abbrev pub total : Cpu → ℕ
total c = waiting c.backlogs + c.own

-- A tick of work on whatever is there.
pub serve-total :
    (bs : List Backlog) (own : ℕ)
    → (total (serve bs own) ≡ waiting bs + own - 1)
      × ((serve bs own).own ≤ own)
      × ((serve bs own).own ≡ 0 → (own ≡ 0) ⊎ (total (serve bs own) ≡ 0))
serve-total bs own = elim (dec_lt 0 (waiting bs)) [
  | yes busy ↦
      let (same, less) = serve-busy bs own busy in
      (omega arith, omega arith, λ h. inl (omega arith))
  | no free ↦
      let (one, none_left) = serve-free bs own (omega arith) in
      (omega arith, omega arith, λ h. inr (omega arith))
]

run-sources : (t : ℕ) (is : List Interferer) (work : ℕ) → sources (run t is work).backlogs ≡ is
unfolding run
run-sources zero is work = idle-sources is
run-sources (suc t) is work =
    let c = run t is work in
    serve-sources (release t c.backlogs) c.own
    ∙ release-sources t c.backlogs
    ∙ run-sources t is work

-- What one tick does to the work in total, while there is some left of the task.
tick-total :
    (t : ℕ) (bs : List Backlog) (own : ℕ) (is : List Interferer)
    → sources bs ≡ is
    → Positive is
    → 0 < own
    → (total (serve (release t bs) own) + 1 + interference is t
        ≡ waiting bs + own + interference is (suc t))
      × ((serve (release t bs) own).own ≡ 0 → total (serve (release t bs) own) ≡ 0)
tick-total t bs own is e pos left =
    let grown = release-waiting t bs (subst Positive (sym e) pos) in
    let before = ap (λ (js : List Interferer). interference js t) e in
    let after = ap (λ (js : List Interferer). interference js (suc t)) e in
    let (less, falls, ends) = serve-total (release t bs) own in
    (omega arith, λ h. elim (ends h) [ inl gone ↦ absurd (omega arith) | inr done ↦ done ])

run-total-suc :
    (t : ℕ) (is : List Interferer) (work : ℕ)
    → Positive is
    → 0 < (run t is work).own
    → (total (run (suc t) is work) + 1 + interference is t
        ≡ total (run t is work) + interference is (suc t))
      × ((run (suc t) is work).own ≡ 0 → total (run (suc t) is work) ≡ 0)
run-total-suc t is work pos left =
    let c = run t is work in
    unfold run in tick-total t c.backlogs c.own is (run-sources t is work) pos left

run-own-suc :
    (t : ℕ) (is : List Interferer) (work : ℕ) → (run (suc t) is work).own ≤ (run t is work).own
unfolding run
run-own-suc t is work = let c = run t is work in (serve-total (release t c.backlogs) c.own).1

interference_start : (is : List Interferer) → Positive is → interference is 0 ≡ 0
interference_start [] pos = refl
interference_start (i ∷ is) (p, pos) =
    let none_yet : div_ceil 0 i.period ≡ 0 =
      omega (arith, div_ceil_least 0 i.period 0 p (omega arith)) in
    omega (arith, ap (λ (k : ℕ). k * i.wcet) none_yet, interference_start is pos)

-- Before any window that the demand fits in, time and pending work add up to the demand, and the
-- task is not done.
pub busy_until :
    (t : ℕ) (is : List Interferer) (work r : ℕ)
    → Positive is
    → ((s : ℕ) → demand work is s ≤ s → r ≤ s)
    → t ≤ r
    → (t + total (run t is work) ≡ demand work is t) × (t < r → 0 < (run t is work).own)
busy_until zero is work r pos h le =
    let start = interference_start is pos in
    unfold run in
    (
      omega (arith, idle-waiting is),
      λ below. elim (dec_lt 0 work) [
        | yes some_work ↦ some_work
        | no nothing ↦ absurd (omega (arith, h 0 (omega arith)))
      ],
    )
busy_until (suc t) is work r pos h le =
    let (sum, left) = busy_until t is work r pos h (omega arith) in
    let (step, ends) = run-total-suc t is work pos (left (omega arith)) in
    let sum' : suc t + total (run (suc t) is work) ≡ demand work is (suc t) = omega arith in
    (
      sum',
      λ below. elim (dec_lt 0 (run (suc t) is work).own) [
        | yes left' ↦ left'
        | no done ↦ absurd (omega (arith, h (suc t) (omega (arith, ends (omega arith)))))
      ],
    )

own_falls :
    (d t : ℕ) (is : List Interferer) (work : ℕ) → (run (d + t) is work).own ≤ (run t is work).own
own_falls zero t is work = rw (zero-add) (omega arith)
own_falls (suc d) t is work =
    rw (suc-add) (omega (arith, run-own-suc (d + t) is work, own_falls d t is work))

-- The simulated task is done after `t` ticks exactly when `t` reaches the least solution.
pub run-own_iff :
    (t : ℕ) (is : List Interferer) (work r : ℕ)
    → Positive is
    → IsLeastSolution work is r
    → ((run t is work).own ≡ 0) ↔ (r ≤ t)
run-own_iff t is work r pos h = (
  (λ done. elim (dec_lt t r) [
    | yes early ↦ absurd (omega (arith, (busy_until t is work r pos h.least (omega arith)).1 early))
    | no late ↦ omega arith
  ]),
  (λ le.
      let finished : (run r is work).own ≡ 0 =
        omega (arith, (busy_until r is work r pos h.least (omega arith)).0) in
      let later : (run ((t - r) + r) is work).own ≤ (run r is work).own =
        own_falls (t - r) r is work in
      let same : (t - r) + r ≡ t = omega arith in
      omega (arith, ap (λ (n : ℕ). (run n is work).own) same)),
)
