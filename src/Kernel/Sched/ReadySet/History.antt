-- ===== src/Kernel/Sched/ReadySet/History.antt =====
-- The ready set over a whole history of wake-ups and suspensions, against the set of priorities
-- that the history describes.
use malleus_rtos.Base.{
  ◌≤◌, ◌≡◌, ◌↔◌, refl, sym, ◌∙◌, Bool, true, false, not, ◌&&◌, ◌||◌, ◌==◌, some, none, List, [],
  ◌∷◌, All,
}
use malleus_rtos.Kernel.Sched.Priority.{Priority, IsPriority}
use malleus_rtos.Kernel.Sched.ReadySet.{ReadySet, IsWord, new, insert, remove, contains, highest}
use malleus_rtos.Kernel.Sched.ReadySet.Members.{
  contains-new, contains-insert, contains-remove, new-IsWord, insert-IsWord, remove-IsWord,
  ReadySet_ext,
}
use malleus_rtos.Kernel.Sched.ReadySet.Highest.{highest_iff, highest-none}

-- A priority becomes ready, or is no longer.
pub data Event : Type 0 where
  woken : Priority → Event
  suspended : Priority → Event

abbrev pub subject : Event → Priority
subject (woken p) = p
subject (suspended p) = p

abbrev pub IsHistory : List Event → Type 0
IsHistory = All (λ (e : Event). IsPriority (subject e))

-- The set after a history, the latest event first.
unfoldable pub replay : List Event → ReadySet
replay [] = new
replay (woken p ∷ es) = insert (replay es) p
replay (suspended p ∷ es) = remove (replay es) p

-- What the history says of a priority: its latest event woke it.
unfoldable pub is_ready : List Event → Priority → Bool
is_ready [] q = false
is_ready (woken p ∷ es) q = q.raw == p.raw || is_ready es q
is_ready (suspended p ∷ es) q = not (q.raw == p.raw) && is_ready es q

replay-IsWord : (es : List Event) → IsHistory es → IsWord (replay es)
unfolding replay
replay-IsWord [] h = new-IsWord
replay-IsWord (woken p ∷ es) (hp, h) = insert-IsWord (replay es) p hp (replay-IsWord es h)
replay-IsWord (suspended p ∷ es) (hp, h) = remove-IsWord (replay es) p (replay-IsWord es h)

contains-replay :
    (es : List Event) (q : Priority)
    → IsHistory es
    → IsPriority q
    → contains (replay es) q ≡ is_ready es q
unfolding replay is_ready
contains-replay [] q h hq = contains-new q hq
contains-replay (woken p ∷ es) q (hp, h) hq =
    rw (contains-insert (replay es) p q hp hq, contains-replay es q h hq) refl
contains-replay (suspended p ∷ es) q (hp, h) hq =
    rw (contains-remove (replay es) p q hp hq, contains-replay es q h hq) refl

-- The most urgent priority that is ready by the history.
pub record IsMostUrgent (es : List Event) (p : Priority) : Type 0 where
  pub valid : IsPriority p
  pub ready : is_ready es p ≡ true
  pub top : (q : Priority) → IsPriority q → is_ready es q ≡ true → q.raw ≤ p.raw

-- The bitmap implements the set of ready priorities: after any history of valid priorities that
-- wake up and are suspended, from the empty set, it fits in 32 bits, a valid priority is a member
-- exactly when its latest event woke it, `highest` returns a priority exactly when that is the
-- most urgent ready one, and nothing exactly when no valid priority is ready.
pub replay-is_ready :
    (es : List Event)
    → IsHistory es
    → IsWord (replay es)
      × ((q : Priority) → IsPriority q → contains (replay es) q ≡ is_ready es q)
      × ((p : Priority) → (highest (replay es) ≡ some p) ↔ IsMostUrgent es p)
      × ((highest (replay es) ≡ none) ↔ ((q : Priority) → IsPriority q → is_ready es q ≡ false))
replay-is_ready es h =
    let word = replay-IsWord es h in
    let member : (q : Priority) → IsPriority q → contains (replay es) q ≡ is_ready es q =
      λ q hq. contains-replay es q h hq in
    let (none_iff, empty_iff) = highest-none (replay es) word in
    (
      word,
      member,
      (λ p.
          let found = highest_iff (replay es) p word in
          (
            (λ e.
                let top = found.0 e in
                record {
                  valid = top.valid;
                  ready = sym (member p top.valid) ∙ top.member;
                  top = λ q hq r. top.top q hq (member q hq ∙ r);
                }),
            (λ top. found.1 (record {
              valid = top.valid;
              member = member p top.valid ∙ top.ready;
              top = λ q hq c. top.top q hq (sym (member q hq) ∙ c);
            })),
          )),
      (
        (λ e q hq. sym (member q hq) ∙ empty_iff.0 (none_iff.0 e) q hq),
        (λ absent. none_iff.1 (empty_iff.1 (λ q hq. member q hq ∙ absent q hq))),
      ),
    )

-- The bitmap forgets the order of the events: two histories of valid priorities that leave the
-- same priorities ready lead to the same word.
pub replay_canonical :
    (es fs : List Event)
    → IsHistory es
    → IsHistory fs
    → ((q : Priority) → IsPriority q → is_ready es q ≡ is_ready fs q)
    → replay es ≡ replay fs
replay_canonical es fs he hf same =
    ReadySet_ext (replay es) (replay fs) (replay-IsWord es he) (replay-IsWord fs hf)
      λ q hq. contains-replay es q he hq ∙ same q hq ∙ sym (contains-replay fs q hf hq)
