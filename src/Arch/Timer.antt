-- ===== src/Arch/Timer.antt =====
-- crates/malleus-arch/src/time.rs: the trait of the timer, over a state `S` of the hardware, and
-- what its documentation asks of a port.
use malleus_rtos.Base.{ℕ, ◌≤◌, ◌<◌, ◌≡◌, leb, Bool, false, Option, none, some}
use malleus_rtos.Base.Results.{Result, ok, err}
use malleus_rtos.Arch.Errors.{ArchError, deadline_out_of_range}
use malleus_rtos.Arch.Time.{Instant, TickRate, saturating_since, saturating_add_ticks}

pub record MonotonicTimer (S : Type 0) : Type 0 where
  pub tick_rate : TickRate
  pub now : S → Instant
  pub set_alarm : Instant → S → S × Result ArchError Unit
  pub clear_alarm : S → S
  pub max_alarm_ticks : ℕ

-- What the documentation says of the timer, with the hardware's side of it: the passing of one
-- tick, and the alarm that is programmed.
pub record IsLawful {S : Type 0} (m : MonotonicTimer S) (elapse : S → S)
    (alarm : S → Option Instant) : Type 0 where
  pub counts : (s : S) → m.now (elapse s) ≡ saturating_add_ticks (m.now s) 1
  pub waits : (s : S) → alarm (elapse s) ≡ alarm s
  pub unmoved : (d : Instant) (s : S) → m.now (m.set_alarm d s).0 ≡ m.now s
  pub accepts :
      (d : Instant) (s : S)
      → saturating_since d (m.now s) ≤ m.max_alarm_ticks
      → ((m.set_alarm d s).1 ≡ ok tt) × (alarm (m.set_alarm d s).0 ≡ some d)
  pub refuses :
      (d : Instant) (s : S)
      → m.max_alarm_ticks < saturating_since d (m.now s)
      → (m.set_alarm d s).1 ≡ err deadline_out_of_range
  pub clears : (s : S) → alarm (m.clear_alarm s) ≡ none

-- The programmed alarm is due: its deadline has come, or had passed when it was set.
abbrev pub is_due : Option Instant → Instant → Bool
is_due none now = false
is_due (some d) now = leb d.ticks now.ticks
