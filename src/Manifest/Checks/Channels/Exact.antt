-- ===== src/Manifest/Checks/Channels/Exact.antt =====
-- When the check of the channels finds no error.
use malleus_rtos.Base.{
  ℕ, ◌≤◌, ◌≡◌, ◌≢◌, ◌↔◌, refl, arith, Bool, true, false, not, List, [], ◌∷◌, All, map, ◌==◌, Option,
  none, some,
}
use malleus_rtos.Base.Text.{Text, text_mem, text_eq-false_iff}
use malleus_rtos.Base.Iff.{iff_trans, iff_and, iff_refl, Fresh, Distinct, Fresh-nil, Fresh-cons}
use malleus_rtos.Manifest.Schema.{Task, Channel, Manifest, task}
use malleus_rtos.Manifest.Diagnostics.{
  Clean, Clean-nil, Clean-join, Clean-guard_error, Clean-when_warning, error, warning,
}
use malleus_rtos.Manifest.Checks.Channels.{
  duplicate_channel, undeclared_endpoint, self_channel, capacity_zero, overflow_invalid,
  blocking_inversion, check_inversion, check_channel, check_channels_from, check_channels,
  valid_overflow, task_names,
}

-- A channel between two different declared tasks, with room for a message and a known policy.
abbrev pub SoundChannel : List Text → Channel → Type 0
SoundChannel names c =
    (text_mem c.from names ≡ true)
    × ((text_mem c.to names ≡ true)
        × ((c.from ≢ c.to) × ((1 ≤ c.capacity) × (text_mem c.overflow valid_overflow ≡ true))))

abbrev pub channel_names : List Channel → List Text
channel_names = map (λ c. c.name)

duplicate-error : (c : Channel) → (duplicate_channel c).severity ≡ error
unfolding duplicate_channel
duplicate-error c = refl

undeclared-error :
    (c : Channel) (ns : List Text) (r e : Text) → (undeclared_endpoint c ns r e).severity ≡ error
unfolding undeclared_endpoint
undeclared-error c ns r e = refl

self-error : (c : Channel) → (self_channel c).severity ≡ error
unfolding self_channel
self-error c = refl

capacity-error : (c : Channel) → (capacity_zero c).severity ≡ error
unfolding capacity_zero
capacity-error c = refl

overflow-error : (c : Channel) → (overflow_invalid c).severity ≡ error
unfolding overflow_invalid
overflow-error c = refl

inversion-warning : (c : Channel) (s t : Task) → (blocking_inversion c s t).severity ≡ warning
unfolding blocking_inversion
inversion-warning c s t = refl

not-false_iff : (b : Bool) → (not b ≡ false) ↔ (b ≡ true)
not-false_iff b = ground arith

capacity_iff : (n : ℕ) → ((n == 0) ≡ false) ↔ (1 ≤ n)
capacity_iff n = ground arith

-- Blocking on a less urgent receiver is only ever a warning.
check_inversion-Clean : (c : Channel) (s t : Option Task) → Clean (check_inversion c s t)
unfolding check_inversion
check_inversion-Clean c none t = Clean-nil
check_inversion-Clean c (some s) none = Clean-nil
check_inversion-Clean c (some s) (some t) =
    Clean-when_warning _ (blocking_inversion c s t) (inversion-warning c s t)

check_channel-Clean :
    (m : Manifest) (names seen : List Text) (c : Channel)
    → Clean (check_channel m names seen c) ↔ ((text_mem c.name seen ≡ false) × SoundChannel names c)
unfolding check_channel
check_channel-Clean m names seen c =
    iff_trans (Clean-guard_error _ (duplicate_channel c) _ (duplicate-error c)) (
      iff_and iff_refl (
        iff_trans
          (Clean-guard_error _ (undeclared_endpoint c names _ c.from) _
            (undeclared-error c names _ c.from))
          (iff_and (not-false_iff _) (
            iff_trans
              (Clean-guard_error _ (undeclared_endpoint c names _ c.to) _
                (undeclared-error c names _ c.to))
              (iff_and (not-false_iff _) (
                iff_trans (Clean-guard_error _ (self_channel c) _ (self-error c)) (
                  iff_and (text_eq-false_iff c.from c.to) (
                    iff_trans (Clean-guard_error _ (capacity_zero c) _ (capacity-error c)) (
                      iff_and (capacity_iff c.capacity) (
                        iff_trans (Clean-guard_error _ (overflow_invalid c) _ (overflow-error c)) (
                          (λ p. (not-false_iff _).0 p.0),
                          (λ h. (
                            (not-false_iff _).1 h,
                            check_inversion-Clean c (task m c.from) (task m c.to),
                          )),
                        )))))))))))

-- A step of the loop, against the names seen and the names ahead.
channels_step :
    {A B C D E F : Type 0} → ((A × B) × ((C × D) × (E × F))) ↔ ((A × D) × ((C × E) × (B × F)))
channels_step = (
  (λ p. ((p.0.0, p.1.0.1), ((p.1.0.0, p.1.1.0), (p.0.1, p.1.1.1)))),
  (λ p. ((p.0.0, p.1.1.0), ((p.1.0.0, p.0.1), (p.1.0.1, p.1.1.1)))),
)

check_channels_from-Clean :
    (m : Manifest) (names seen : List Text) (cs : List Channel)
    → Clean (check_channels_from m names seen cs) ↔ (
        Fresh seen (channel_names cs) × (Distinct (channel_names cs) × All (SoundChannel names) cs))
unfolding check_channels_from
check_channels_from-Clean m names seen [] = ((λ h. (tt, (tt, tt))), (λ h. Clean-nil))
check_channels_from-Clean m names seen (c ∷ cs) =
    iff_trans
      (Clean-join _ _ (check_channel-Clean m names seen c) (
        iff_trans (check_channels_from-Clean m names (c.name ∷ seen) cs)
          (iff_and (Fresh-cons c.name seen (channel_names cs)) iff_refl)))
      channels_step

-- The check of the channels finds no error exactly when the channels' names differ and every
-- channel joins two different declared tasks, has a capacity of at least 1 and one of the four
-- overflow policies.
pub check_channels-Clean :
    (m : Manifest)
    → Clean (check_channels m)
      ↔ (Distinct (channel_names m.channels) × All (SoundChannel (task_names m.tasks)) m.channels)
unfolding check_channels
check_channels-Clean m =
    iff_trans (check_channels_from-Clean m (task_names m.tasks) [] m.channels)
      ((λ p. p.1), (λ p. (Fresh-nil (channel_names m.channels), p)))
