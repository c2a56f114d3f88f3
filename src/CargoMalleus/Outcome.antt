-- ===== src/CargoMalleus/Outcome.antt =====
-- What a run of a command comes to: its exit code, an error that is reported, or a panic.
use malleus_rtos.Base.{◌≡◌, refl}

pub data ExitCode : Type 0 where
  success : ExitCode
  failure : ExitCode

pub data Outcome (E A : Type 0) : Type 0 where
  returned : A → Outcome E A
  failed : E → Outcome E A
  panicked : Outcome E A

infixl 5 ◌>>=◌
abbrev pub ◌>>=◌ : {E A B : Type 0} → Outcome E A → (A → Outcome E B) → Outcome E B
panicked >>= rest = panicked
failed error >>= rest = failed error
returned value >>= rest = rest value

pub returned_inj :
    {E A : Type 0} {a b : A} {r : Outcome E A} → r ≡ returned a → r ≡ returned b → a ≡ b
returned_inj h k = cc (h, k)

-- Inversion of a chain that returns.
pub >>=-eq-returned :
    {E A B : Type 0} (first : Outcome E A) (rest : A → Outcome E B) {last : B}
    → (first >>= rest) ≡ returned last
    → (value : A) × (first ≡ returned value) × (rest value ≡ returned last)
>>=-eq-returned panicked rest h = cc
>>=-eq-returned (failed error) rest h = cc
>>=-eq-returned (returned value) rest h = (value, refl, h)
