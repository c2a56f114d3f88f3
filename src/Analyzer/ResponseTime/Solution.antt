-- ===== src/Analyzer/ResponseTime/Solution.antt =====
-- What the iteration finds: the least solution of the recurrence, or a proof that none meets the
-- deadline.
use malleus_rtos.Base.{ℕ, zero, suc, ◌+◌, ◌≤◌, ◌<◌, ◌≡◌, ◌≢◌, ◌⊎◌, inl, inr, min, arith, refl}
use malleus_rtos.Base.{List, u64_max, Bool-cases, ltb, leb, ◌==◌, ==_iff}
use malleus_rtos.Analyzer.ResponseTime.{
  Interferer, add_interference, Verdict, pass, fail, unknown, Reason, no_convergence, settle, solve,
}
use malleus_rtos.Analyzer.ResponseTime.Recurrence.{
  demand, Positive, IsLeastSolution, demand_mono, next-demand,
}

-- What a verdict of the iteration claims: a pass gives the least solution and its slack; a failure
-- gives a value beyond the deadline that no solution undercuts.
abbrev pub IsSound : ℕ → List Interferer → ℕ → Verdict → Type 0
IsSound base is deadline (pass response slack) =
    IsLeastSolution base is response × (response + slack ≡ deadline)
IsSound base is deadline (fail response overrun) =
    (response ≡ deadline + overrun)
    × (0 < overrun)
    × ((t : ℕ) → demand base is t ≤ t → response ≤ t)
IsSound base is deadline (unknown reason) = reason ≡ no_convergence

module _ (is : List Interferer) (base deadline : ℕ) (pos : Positive is)
    (fits : base ≤ u64_max) where
  -- No solution lies below `r`.
  abbrev IsBelow : ℕ → Type 0
  IsBelow r = (t : ℕ) → demand base is t ≤ t → r ≤ t

  next-IsBelow : (r : ℕ) → IsBelow r → IsBelow (add_interference is r base)
  next-IsBelow r below t h =
      omega (arith, next-demand is base r fits, demand_mono base is r t pos (below t h))

  settle-IsSound :
      (r : ℕ)
      → deadline < u64_max
      → add_interference is r base ≡ r
      → IsBelow r
      → IsSound base is deadline (settle deadline r)
  unfolding settle
  settle-IsSound r room e below = elim (Bool-cases (leb r deadline)) [
    | inl small ↦ rw small (record { solves = exact (ground arith); least = below }, ground arith)
    | inr large ↦ rw large (ground arith, ground arith, below)
  ]
    where
      exact : r ≤ deadline → demand base is r ≡ r
      exact le = omega (arith, next-demand is base r fits)

  pub solve-IsSound :
      (rounds r : ℕ)
      → deadline < u64_max
      → IsBelow r
      → IsSound base is deadline (solve rounds is base deadline r)
  unfolding solve
  solve-IsSound zero r room below = refl
  solve-IsSound (suc rounds) r room below = elim (Bool-cases (add_interference is r base == r)) [
    | inl done ↦
        rw done (settle-IsSound r room ((==_iff (add_interference is r base) r).0 done) below)
    | inr more ↦ rw more (elim (Bool-cases (ltb deadline (add_interference is r base))) [
      | inl over ↦ rw over (ground arith, ground arith, next-IsBelow r below)
      | inr under ↦
          rw under (solve-IsSound rounds (add_interference is r base) room (next-IsBelow r below))
    ])
  ]

  -- Each round that neither settles nor overruns the deadline gains at least one tick, so as many
  -- rounds as there are ticks left suffice.
  pub solve_converges :
      (rounds r : ℕ)
      → r ≤ u64_max
      → r ≤ demand base is r
      → deadline < r + rounds
      → (r ≤ deadline) ⊎ (0 < rounds)
      → (reason : Reason) → solve rounds is base deadline r ≢ unknown reason
  unfolding solve
  solve_converges zero r word grows enough start reason = absurd (omega arith)
  solve_converges (suc rounds) r word grows enough start reason =
      elim (Bool-cases (add_interference is r base == r)) [
        | inl done ↦ rw done (settle-ne-unknown r reason)
        | inr more ↦ rw more (elim (Bool-cases (ltb deadline (add_interference is r base))) [
          | inl over ↦ rw over (λ e. cc)
          | inr under ↦
              let next = add_interference is r base in
              let value : next ≡ min (demand base is r) u64_max = next-demand is base r fits in
              let gain : suc r ≤ next = ground arith in
              rw under (
                solve_converges rounds next (omega arith)
                  (omega (arith, demand_mono base is r next pos (omega arith))) (omega arith)
                  (inl (ground arith)) reason)
        ])
      ]
    where
      settle-ne-unknown : (r : ℕ) (reason : Reason) → settle deadline r ≢ unknown reason
      settle-ne-unknown r reason = unfold settle in ground arith
