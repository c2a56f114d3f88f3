-- ===== src/Analyzer/Schedule/Sporadic/Backlogs.antt =====
-- What of the work of the streams is pending before a release.
use native.Mathlib.Decide.{dec_lt}
use malleus_rtos.Base.{ℕ, zero, suc, ◌+◌, ◌≤◌, ◌≡◌, refl, ap, ◌∙◌, arith, List, [], ◌∷◌}
use malleus_rtos.Analyzer.Schedule.{Backlog, serve}
use malleus_rtos.Analyzer.Schedule.Waiting.{
  sources, waiting, idle-sources, idle-waiting, serve-sources, serve-busy, serve-free,
}
use malleus_rtos.Analyzer.Schedule.Sporadic.{Stream, tasks_of, admit, before}
use malleus_rtos.Analyzer.Schedule.Sporadic.Arrivals.{influx, flow, flow-suc, flow-zero}

pub admit-sources :
    (t : ℕ) (ss : List Stream) (bs : List Backlog)
    → sources bs ≡ tasks_of ss
    → sources (admit t ss bs) ≡ tasks_of ss
unfolding admit
admit-sources t [] bs e = e
admit-sources t (s ∷ ss) [] e = e
admit-sources t (s ∷ ss) (b ∷ bs) e =
    let rest : sources bs ≡ tasks_of ss = cc e in
    let first : b.task ≡ s.task = cc e in cc (admit-sources t ss bs rest, first)

pub admit-waiting :
    (t : ℕ) (ss : List Stream) (bs : List Backlog)
    → sources bs ≡ tasks_of ss
    → waiting (admit t ss bs) ≡ waiting bs + influx ss t
unfolding admit
admit-waiting t [] bs e = omega arith
admit-waiting t (s ∷ ss) [] e = absurd (cc e)
admit-waiting t (s ∷ ss) (b ∷ bs) e =
    let rest : sources bs ≡ tasks_of ss = cc e in omega (arith, admit-waiting t ss bs rest)

pub before-sources : (t : ℕ) (ss : List Stream) → sources (before t ss) ≡ tasks_of ss
unfolding before
before-sources zero ss = idle-sources (tasks_of ss)
before-sources (suc t) ss =
    serve-sources (admit t ss (before t ss)) 0
    ∙ admit-sources t ss (before t ss) (before-sources t ss)

-- A busy period: since tick `from` the processor had preempting work at each of the `n` ticks.
pub record Busy (t : ℕ) (ss : List Stream) (bs : List Backlog) : Type 0 where
  pub from : ℕ
  pub n : ℕ
  pub now : from + n ≡ t
  pub pending : waiting bs + n ≡ flow ss from n
  pub full : (k : ℕ) → k ≤ n → k ≤ flow ss from k

longer :
    (ss : List Stream) (from n w : ℕ)
    → ((k : ℕ) → k ≤ n → k ≤ flow ss from k)
    → w + suc n ≡ flow ss from (suc n)
    → (k : ℕ) → k ≤ suc n
    → k ≤ flow ss from k
longer ss from n w full e k le = elim (dec_lt n k) [
  | yes last ↦
      let same : k ≡ suc n = omega arith in omega (arith, ap (λ (j : ℕ). flow ss from j) same)
  | no inner ↦ full k (omega arith)
]

-- At every tick some busy period is on, possibly one that has only begun.
pub before-Busy : (t : ℕ) (ss : List Stream) → Busy t ss (before t ss)
unfolding before
before-Busy zero ss = record {
  from = 0;
  n = 0;
  now = refl;
  pending = omega (arith, idle-waiting (tasks_of ss), flow-zero ss 0);
  full = λ k le. omega arith;
}
before-Busy (suc t) ss =
    let bs = before t ss in
    let busy = before-Busy t ss in
    let admitted = admit-waiting t ss bs (before-sources t ss) in
    let brought : flow ss busy.from (suc busy.n) ≡ flow ss busy.from busy.n + influx ss t =
      flow-suc ss busy.from busy.n
      ∙ ap (λ (x : ℕ). flow ss busy.from busy.n + influx ss x) busy.now in
    elim (dec_lt 0 (waiting (admit t ss bs))) [
      | yes more ↦
          let (own, less) = serve-busy (admit t ss bs) 0 more in
          let left : waiting (serve (admit t ss bs) 0).backlogs + suc busy.n
              ≡ flow ss busy.from (suc busy.n) =
            omega arith in
          record {
            from = busy.from;
            n = suc busy.n;
            now = omega arith;
            pending = left;
            full = longer ss busy.from busy.n _ busy.full left;
          }
      | no nothing ↦
          let (own, none_left) = serve-free (admit t ss bs) 0 (omega arith) in
          record {
            from = suc t;
            n = 0;
            now = omega arith;
            pending = omega (arith, flow-zero ss (suc t));
            full = λ k le. omega arith;
          }
    ]
