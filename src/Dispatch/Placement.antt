-- ===== src/Dispatch/Placement.antt =====
-- A task of the device with a name and a priority that no other has.
use mathlib.Core.Path.{subst}
use malleus_rtos.Base.{ℕ, ◌≡◌, ◌≢◌, ◌⊎◌, refl, sym, ap, arith, inl, inr, List, [], ◌∷◌, All}
use malleus_rtos.Kernel.Sched.Priority.{IsPriority}
use malleus_rtos.Dispatch.{Activity, Conforms, urgency, priority_of, at_level}
use malleus_rtos.Dispatch.Totals.{released_at, AllPriorities}
use malleus_rtos.Dispatch.Streams.{Named}

-- Another task, with another name and another priority.
abbrev pub Apart : Activity → Activity → Type 0
Apart a o = (o.task.name ≢ a.task.name) × (urgency o ≢ urgency a)

-- The task stands in the list once, and all the others are apart from it.
abbrev pub Stands : Activity → List Activity → Type 0
Stands a [] = ⊥
Stands a (o ∷ acts) = ((o ≡ a) × All (Apart a) acts) ⊎ (Apart a o × Stands a acts)

Apart-Named : (a : Activity) (acts : List Activity) → All (Apart a) acts → Named a.task acts
Apart-Named a [] h = tt
Apart-Named a (o ∷ acts) ((name, level), h) = ((λ _. name), Apart-Named a acts h)

pub Stands-Named : (a : Activity) (acts : List Activity) → Stands a acts → Named a.task acts
Stands-Named a [] h = absurd h
Stands-Named a (o ∷ acts) (inl (same, h)) =
    (λ urgent. absurd (omega (arith, ap urgency same)), Apart-Named a acts h)
Stands-Named a (o ∷ acts) (inr ((name, level), h)) = ((λ _. name), Stands-Named a acts h)

pub Stands-valid :
    (a : Activity) (acts : List Activity)
    → AllPriorities acts
    → Stands a acts
    → IsPriority (priority_of a)
Stands-valid a [] valid h = absurd h
Stands-valid a (o ∷ acts) (v, valid) (inl (same, h)) = omega (arith, ap urgency same)
Stands-valid a (o ∷ acts) (v, valid) (inr (apart, h)) = Stands-valid a acts valid h

pub Stands-Conforms :
    (a : Activity) (acts : List Activity) → All Conforms acts → Stands a acts → Conforms a
Stands-Conforms a [] conforms h = absurd h
Stands-Conforms a (o ∷ acts) (c, conforms) (inl (same, h)) = subst Conforms same c
Stands-Conforms a (o ∷ acts) (c, conforms) (inr (apart, h)) = Stands-Conforms a acts conforms h

released-Apart :
    (a : Activity) (acts : List Activity) (t : ℕ)
    → All (Apart a) acts
    → released_at (at_level (urgency a)) t acts ≡ 0
unfolding released_at
released-Apart a [] t h = refl
released-Apart a (o ∷ acts) t ((name, level), h) = ground (arith, released-Apart a acts t h)

-- What is released at the level of the task is its own work.
pub released_own :
    (a : Activity) (acts : List Activity) (t : ℕ)
    → Stands a acts
    → released_at (at_level (urgency a)) t acts ≡ a.work t
unfolding released_at
released_own a [] t h = absurd h
released_own a (o ∷ acts) t (inl (same, h)) =
    let level = ap urgency same in
    let own = ap (λ (b : Activity). b.work t) same in ground (arith, released-Apart a acts t h)
released_own a (o ∷ acts) t (inr ((name, level), h)) = ground (arith, released_own a acts t h)

-- No two tasks of the device have a name or a priority in common.
abbrev pub Separate : List Activity → Type 0
Separate [] = Unit
Separate (a ∷ acts) = All (Apart a) acts × Separate acts

abbrev pub AllStand : List Activity → List Activity → Type 0
AllStand acts = All (λ (b : Activity). Stands b acts)

behind :
    (a : Activity) (bs acts : List Activity)
    → All (Apart a) bs
    → AllStand acts bs
    → AllStand (a ∷ acts) bs
behind a [] acts h placed = tt
behind a (b ∷ bs) acts ((name, level), h) (p, placed) =
    (inr (((λ e. name (sym e)), (λ e. level (sym e))), p), behind a bs acts h placed)

pub Separate-Stands : (acts : List Activity) → Separate acts → AllStand acts acts
Separate-Stands [] h = tt
Separate-Stands (a ∷ acts) (apart, h) =
    (inl (refl, apart), behind a acts acts apart (Separate-Stands acts h))
