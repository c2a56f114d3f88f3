-- ===== src/Base/Iff.antt =====
-- Equivalences of statements, and lists of names without repetition.
use mathlib.Core.Path.{◌≡◌, refl, sym, ◌∙◌}
use mathlib.Core.Logic.{◌↔◌, inl, inr}
use mathlib.Core.Bool.{false}
use mathlib.Core.List.{List, [], ◌∷◌}
use native.Mathlib.Omega.{arith}
use malleus_rtos.Base.Tests.{Bool-cases}
use malleus_rtos.Base.Lists.{All}
use malleus_rtos.Base.Text.{Text, text_eq, text_mem, text_eq-eq}

pub iff_trans : {A B C : Type 0} → A ↔ B → B ↔ C → A ↔ C
iff_trans f g = ((λ a. g.0 (f.0 a)), (λ c. f.1 (g.1 c)))

pub iff_sym : {A B : Type 0} → A ↔ B → B ↔ A
iff_sym f = (f.1, f.0)

pub iff_refl : {A : Type 0} → A ↔ A
iff_refl = ((λ a. a), (λ a. a))

pub iff_and : {A B C D : Type 0} → A ↔ B → C ↔ D → (A × C) ↔ (B × D)
iff_and f g = ((λ p. (f.0 p.0, g.0 p.1)), (λ p. (f.1 p.0, g.1 p.1)))

pub iff_and_given : {A B C D : Type 0} → A ↔ B → (A → C ↔ D) → (A × C) ↔ (B × D)
iff_and_given f g = ((λ p. (f.0 p.0, (g p.0).0 p.1)), (λ p. (f.1 p.0, (g (f.1 p.0)).1 p.1)))

-- Swaps the parts of two pairs of facts, as induction over a list of records wants.
pub regroup : {A B C D : Type 0} → ((A × B) × (C × D)) ↔ ((A × C) × (B × D))
regroup = ((λ p. ((p.0.0, p.1.0), (p.0.1, p.1.1))), (λ p. ((p.0.0, p.1.0), (p.0.1, p.1.1))))

pub text_eq_sym : (s t : Text) → text_eq s t ≡ text_eq t s
text_eq_sym s t = elim (Bool-cases (text_eq s t)) [
  | inl e ↦ rw (text_eq-eq s t e)
  | inr e ↦ elim (Bool-cases (text_eq t s)) [
    | inl e' ↦ cc (text_eq-eq t s e')
    | inr e' ↦ e ∙ sym e'
  ]
]

-- No name of the list has been seen.
abbrev pub Fresh : List Text → List Text → Type 0
Fresh seen = All (λ n. text_mem n seen ≡ false)

-- No name stands in the list twice.
abbrev pub Distinct : List Text → Type 0
Distinct [] = Unit
Distinct (n ∷ ns) = (text_mem n ns ≡ false) × Distinct ns

pub Fresh-nil : (ns : List Text) → Fresh [] ns
unfolding text_mem
Fresh-nil [] = tt
Fresh-nil (n ∷ ns) = (refl, Fresh-nil ns)

not_member_split :
    (n m : Text) (ns : List Text)
    → (text_mem n (m ∷ ns) ≡ false) ↔ ((text_eq n m ≡ false) × (text_mem n ns ≡ false))
unfolding text_mem
not_member_split n m ns = ground arith

-- Having seen one more name is that name not being ahead.
pub Fresh-cons :
    (n : Text) (seen ns : List Text)
    → Fresh (n ∷ seen) ns ↔ ((text_mem n ns ≡ false) × Fresh seen ns)
Fresh-cons n seen [] = ((λ h. (unfold text_mem in refl, tt)), (λ h. tt))
Fresh-cons n seen (m ∷ ns) =
    iff_trans (iff_and (not_member_split m n seen) (Fresh-cons n seen ns)) (
      iff_trans regroup
        (iff_and (rw (text_eq_sym m n) (iff_sym (not_member_split n m ns))) iff_refl))
