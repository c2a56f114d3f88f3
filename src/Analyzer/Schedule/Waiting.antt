-- ===== src/Analyzer/Schedule/Waiting.antt =====
-- The work that is pending on the processor, against the demand of the recurrence.
use malleus_rtos.Base.{
  ℕ, suc, ◌+◌, ◌-◌, ◌*◌, ◌/◌, ◌%◌, ◌≤◌, ◌<◌, ◌≡◌, refl, ap, arith, ◌==◌, if◌then◌else◌, List, [],
  ◌∷◌, div_ceil,
}
use malleus_rtos.Base.{Bool-cases, inl, inr}
use malleus_rtos.Base.Word.{div_ceil_least, div_ceil_reaches, div_ceil_mono}
use malleus_rtos.Analyzer.ResponseTime.{Interferer}
use malleus_rtos.Analyzer.ResponseTime.Recurrence.{interference, Positive}
use malleus_rtos.Analyzer.Schedule.{Backlog, release, serve, idle_backlogs}

abbrev pub sources : List Backlog → List Interferer
sources [] = []
sources (b ∷ bs) = b.task ∷ sources bs

abbrev pub waiting : List Backlog → ℕ
waiting [] = 0
waiting (b ∷ bs) = b.pending + waiting bs

pub idle-sources : (is : List Interferer) → sources (idle_backlogs is) ≡ is
unfolding idle_backlogs
idle-sources [] = refl
idle-sources (i ∷ is) = ap (λ (js : List Interferer). i ∷ js) (idle-sources is)

pub idle-waiting : (is : List Interferer) → waiting (idle_backlogs is) ≡ 0
unfolding idle_backlogs
idle-waiting [] = refl
idle-waiting (i ∷ is) = omega (arith, idle-waiting is)

pub release-sources : (t : ℕ) (bs : List Backlog) → sources (release t bs) ≡ sources bs
unfolding release
release-sources t [] = refl
release-sources t (b ∷ bs) = ap (λ (js : List Interferer). b.task ∷ js) (release-sources t bs)

pub serve-sources : (bs : List Backlog) (own : ℕ) → sources (serve bs own).backlogs ≡ sources bs
unfolding serve
serve-sources [] own = refl
serve-sources (b ∷ bs) own = ground (arith, serve-sources bs own)

past : (q d p t : ℕ) → t ≡ q * p → suc t ≤ d * p → q < d
past q d p t e h = grind arith

-- One more tick begins one more period exactly at a multiple of it.
div_ceil-suc : (t p : ℕ) → 0 < p → div_ceil (suc t) p ≡ div_ceil t p + (if t % p == 0 then 1 else 0)
div_ceil-suc t p h = elim (Bool-cases (t % p == 0)) [
  | inl e ↦
      let quotient : div_ceil t p ≡ t / p = unfold div_ceil in rw e refl in
      let least : div_ceil (suc t) p ≤ t / p + 1 =
        div_ceil_least (suc t) p (t / p + 1) h (grind arith) in
      let more : t / p < div_ceil (suc t) p =
        past (t / p) (div_ceil (suc t) p) p t (grind arith) (div_ceil_reaches (suc t) p h) in
      rw e (omega arith)
  | inr e ↦
      let quotient : div_ceil t p ≡ t / p + 1 = unfold div_ceil in rw e refl in
      let least : div_ceil (suc t) p ≤ t / p + 1 =
        div_ceil_least (suc t) p (t / p + 1) h (grind arith) in
      rw e (omega (arith, div_ceil_mono t (suc t) p h (omega arith)))
]

released :
    (t : ℕ) (i : Interferer)
    → 0 < i.period
    → div_ceil (suc t) i.period * i.wcet
      ≡ div_ceil t i.period * i.wcet + (if t % i.period == 0 then i.wcet else 0)
released t i h = rw (div_ceil-suc t i.period h) (ground arith)

-- What a release adds is the growth of the demand.
pub release-waiting :
    (t : ℕ) (bs : List Backlog)
    → Positive (sources bs)
    → waiting (release t bs) + interference (sources bs) t
      ≡ waiting bs + interference (sources bs) (suc t)
unfolding release
release-waiting t [] h = refl
release-waiting t (b ∷ bs) (h, hs) = omega (arith, released t b.task h, release-waiting t bs hs)

-- A tick of work goes to the pending jobs first.
pub serve-busy :
    (bs : List Backlog) (own : ℕ)
    → 0 < waiting bs
    → ((serve bs own).own ≡ own) × (waiting (serve bs own).backlogs + 1 ≡ waiting bs)
unfolding serve
serve-busy [] own h = absurd (omega arith)
serve-busy (b ∷ bs) own h = ground (arith, serve-busy bs own)

pub serve-free :
    (bs : List Backlog) (own : ℕ)
    → waiting bs ≡ 0
    → ((serve bs own).own ≡ own - 1) × (waiting (serve bs own).backlogs ≡ 0)
unfolding serve
serve-free [] own h = (refl, refl)
serve-free (b ∷ bs) own h = ground (arith, serve-free bs own)
