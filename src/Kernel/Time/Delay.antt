-- ===== src/Kernel/Time/Delay.antt =====
-- A delay: microseconds become ticks, the timeout becomes a deadline, and the timer's alarm is set.
use malleus_rtos.Base.{
  ℕ, zero, suc, ◌+◌, ◌*◌, ◌≤◌, ◌<◌, ◌≡◌, ◌↔◌, refl, sym, ap, ◌∙◌, arith, leb, true, Option, some,
  u64_max,
}
use malleus_rtos.Base.Results.{ok, err, some_inj}
use malleus_rtos.Arch.Errors.{deadline_out_of_range}
use malleus_rtos.Arch.Time.{Instant, ticks_from_micros}
use malleus_rtos.Arch.Time.Rounding.{ticks_from_micros-least}
use malleus_rtos.Arch.Timer.{MonotonicTimer, IsLawful, is_due}
use malleus_rtos.Kernel.Time.{Timeout, deadline_from}

-- The hardware `n` ticks later.
abbrev pub later {ℓ} : {S : Type ℓ} → (S → S) → ℕ → S → S
later elapse zero s = s
later elapse (suc n) s = elapse (later elapse n s)

module _ {S : Type 0} (m : MonotonicTimer S) (elapse : S → S) (alarm : S → Option Instant)
    (lawful : IsLawful m elapse alarm) where
  later-now :
      (n : ℕ) (s : S)
      → (m.now s).ticks + n ≤ u64_max
      → (m.now (later elapse n s)).ticks ≡ (m.now s).ticks + n
  later-now zero s room = omega arith
  later-now (suc n) s room =
      let before = later-now n s (omega arith) in
      let step = ap (λ (t : Instant). t.ticks) (lawful.counts (later elapse n s)) in omega arith

  later-alarm : (n : ℕ) (s : S) → alarm (later elapse n s) ≡ alarm s
  later-alarm zero s = refl
  later-alarm (suc n) s = lawful.waits (later elapse n s) ∙ later-alarm n s

  -- An alarm that was set for a deadline is due exactly from that deadline on.
  alarm_due :
      (d : Instant) (n : ℕ) (s : S)
      → (m.now s).ticks + n ≤ u64_max
      → alarm s ≡ some d
      → (is_due (alarm (later elapse n s)) (m.now (later elapse n s)) ≡ true)
        ↔ (d.ticks ≤ (m.now s).ticks + n)
  alarm_due d n s room set = rw (later-alarm n s, set) (due_iff (later-now n s room))
    where
      due_iff : {now wake : ℕ} → now ≡ wake → (leb d.ticks now ≡ true) ↔ (d.ticks ≤ wake)
      due_iff {now} {wake} e = ground arith

-- A delay ends at the first tick that is not shorter than asked: on a port whose timer keeps its
-- contract, with a product of microseconds and rate and a deadline below the largest `u64`, a
-- delay that is no longer than the timer's longest alarm is accepted, and `n` ticks later, while
-- the timer counts, the alarm is due exactly where `n` ticks last at least as long as the
-- microseconds that were asked for.
pub delay_exact :
    {S : Type 0} (m : MonotonicTimer S) (elapse : S → S) (alarm : S → Option Instant)
    → IsLawful m elapse alarm
    → (micros : ℕ) (s : S) (deadline : Instant) → micros * m.tick_rate.hz ≤ u64_max
    → (m.now s).ticks + ticks_from_micros m.tick_rate micros ≤ u64_max
    → ticks_from_micros m.tick_rate micros ≤ m.max_alarm_ticks
    → deadline_from (Timeout.ticks (ticks_from_micros m.tick_rate micros)) (m.now s) ≡ some deadline
    → let (s', result) = m.set_alarm deadline s in
      (result ≡ ok tt)
      × ((n : ℕ)
          → (m.now s).ticks + n ≤ u64_max
          → (is_due (alarm (later elapse n s')) (m.now (later elapse n s')) ≡ true)
            ↔ (micros * m.tick_rate.hz ≤ n * 1_000_000))
unfolding deadline_from
delay_exact m elapse alarm lawful micros s d fits room short resolved =
    let ticks = ticks_from_micros m.tick_rate micros in
    let at : d.ticks ≡ (m.now s).ticks + ticks =
      ap (λ (t : Instant). t.ticks) (sym (some_inj resolved)) ∙ omega arith in
    let (accepted, set) = lawful.accepts d s (omega arith) in
    let start = ap (λ (t : Instant). t.ticks) (lawful.unmoved d s) in
    (
      accepted,
      (λ n room_n.
          let due = alarm_due m elapse alarm lawful d n (m.set_alarm d s).0 (omega arith) set in
          let least = ticks_from_micros-least m.tick_rate micros n fits in
          ((λ h. least.0 (omega (arith, due.0 h))), (λ h. due.1 (omega (arith, least.1 h))))),
    )

-- A delay beyond the timer's longest alarm is refused with the documented error.
pub delay_refused :
    {S : Type 0} (m : MonotonicTimer S) (elapse : S → S) (alarm : S → Option Instant)
    → IsLawful m elapse alarm
    → (ticks : ℕ) (s : S) (deadline : Instant) → (m.now s).ticks + ticks ≤ u64_max
    → m.max_alarm_ticks < ticks
    → deadline_from (Timeout.ticks ticks) (m.now s) ≡ some deadline
    → (m.set_alarm deadline s).1 ≡ err deadline_out_of_range
unfolding deadline_from
delay_refused m elapse alarm lawful ticks s d room long resolved =
    let at : d.ticks ≡ (m.now s).ticks + ticks =
      ap (λ (t : Instant). t.ticks) (sym (some_inj resolved)) ∙ omega arith in
    lawful.refuses d s (omega arith)
