-- ===== src/Manifest/Units/Powers.antt =====
-- Rounding a size up to a power of two.
use native.Mathlib.Nat.{pow-le-pow_right, one-le-pow}
use mathlib.Core.Path.{subst}
use native.Mathlib.Decide.{dec_lt}
use mathlib.Core.Option
use malleus_rtos.Base.Word.{powers}
use malleus_rtos.Base.{
  ℕ, zero, suc, ◌+◌, ◌*◌, ◌^◌, ◌≤◌, ◌<◌, ◌≡◌, ◌↔◌, refl, sym, ap, ◌∙◌, arith, Bool-cases, leb, inl,
  inr, Option, none, some, Option-cases,
}
use malleus_rtos.Manifest.Units.{
  ByteSize, from_bytes, double_until, next_power_of_two, to_power_of_two,
}

pow_double : (e : ℕ) → 2 ^ suc e ≡ 2 * 2 ^ e
pow_double e = omega powers

-- The search from `2 ^ e` finds the first power that reaches `n`.
double_until_sound :
    (fuel e n p : ℕ)
    → double_until fuel (2 ^ e) n ≡ some p
    → (k : ℕ) × (p ≡ 2 ^ k)
      × (n ≤ p)
      × (e ≤ k)
      × (k < e + fuel)
      × ((j : ℕ) → e ≤ j → n ≤ 2 ^ j → p ≤ 2 ^ j)
unfolding double_until
double_until_sound zero e n p h = cc
double_until_sound (suc fuel) e n p h = elim (Bool-cases (leb n (2 ^ e))) [
  | inl small ↦
      let same : 2 ^ e ≡ p = ground arith in
      (
        e,
        sym same,
        ground arith,
        omega arith,
        omega arith,
        λ j le _. omega (arith, pow-le-pow_right {n = 2} (omega arith) {i = e} {j = j} le),
      )
  | inr large ↦
      let next : double_until fuel (2 * 2 ^ e) n ≡ some p = ground arith in
      let wide : n ≤ 2 ^ e → ⊥ = ground arith in
      let (k, power, reach, after, within, least) =
        double_until_sound fuel (suc e) n p (rw (pow_double e) next) in
      (
        k,
        power,
        reach,
        omega arith,
        omega arith,
        λ j le hn. elim (dec_lt e j) [
          | yes lt ↦ least j lt hn
          | no ge ↦ let same : j ≡ e = omega arith in absurd (wide (subst (λ x. n ≤ 2 ^ x) same hn))
        ],
      )
]

double_until-none :
    (fuel e n : ℕ) → double_until fuel (2 ^ e) n ≡ none → (j : ℕ) → e ≤ j → j < e + fuel → 2 ^ j < n
unfolding double_until
double_until-none zero e n h j le lt = absurd (omega arith)
double_until-none (suc fuel) e n h j le lt = elim (Bool-cases (leb n (2 ^ e))) [
  | inl small ↦ absurd (ground arith)
  | inr large ↦
      let next : double_until fuel (2 * 2 ^ e) n ≡ none = ground arith in
      let above : 2 ^ e < n = ground arith in
      elim (dec_lt e j) [
        | yes after ↦
            double_until-none fuel (suc e) n (rw (pow_double e) next) j after (omega arith)
        | no here ↦ let same : e ≡ j = omega arith in subst (λ x. 2 ^ x < n) same above
      ]
]

-- The panic is exactly that the next power of two would be `2 ^ 64`.
next_power_of_two-none : (n : ℕ) → (next_power_of_two n ≡ none) ↔ (2 ^ 63 < n)
next_power_of_two-none n = (sound, complete)
  where
    sound : next_power_of_two n ≡ none → 2 ^ 63 < n
    sound h =
        double_until-none 64 0 n (unfold next_power_of_two in h) 63 (omega arith) (omega arith)

    complete : 2 ^ 63 < n → next_power_of_two n ≡ none
    complete big = elim (Option-cases (next_power_of_two n)) [
      | inl e ↦ e
      | inr (p, e) ↦
          let (k, power, reach, _, within, _) =
            double_until_sound 64 0 n p (unfold next_power_of_two in e) in
          absurd
            (omega (arith, pow-le-pow_right {n = 2} (omega arith) {i = k} {j = 63} (omega arith)))
    ]

-- The rounded size is the least power of two that holds the size, and fits 64 bits.
pub record IsLeastPower (n p : ℕ) : Type 0 where
  pub exponent : ℕ
  pub is_power : p ≡ 2 ^ exponent
  pub in_word : exponent < 64
  pub holds : n ≤ p
  pub least : (j : ℕ) → n ≤ 2 ^ j → p ≤ 2 ^ j

found-IsLeastPower : (n p : ℕ) → next_power_of_two n ≡ some p → IsLeastPower n p
found-IsLeastPower n p h =
    let (k, power, reach, _, within, least) =
      double_until_sound 64 0 n p (unfold next_power_of_two in h) in
    record {
      exponent = k;
      is_power = power;
      in_word = omega arith;
      holds = reach;
      least = λ j hn. least j (omega arith) hn;
    }

to_power_of_two_small : (b : ByteSize) → b.bytes ≤ 1 → to_power_of_two b ≡ some (from_bytes 1)
unfolding to_power_of_two
to_power_of_two_small b h = ground arith

to_power_of_two_large :
    (b : ByteSize) (o : Option ℕ)
    → 1 < b.bytes
    → next_power_of_two b.bytes ≡ o
    → to_power_of_two b ≡ Option.map from_bytes o
unfolding to_power_of_two
to_power_of_two_large b none h e = ground arith
to_power_of_two_large b (some p) h e = ground arith

-- Rounding up gives the least power of two that holds the size; it has no result, since the
-- standard library panics, exactly for the sizes above `2 ^ 63`.
pub to_power_of_two_lem :
    (b : ByteSize)
    → ((c : ByteSize) → to_power_of_two b ≡ some c → IsLeastPower b.bytes c.bytes)
      × ((to_power_of_two b ≡ none) ↔ (2 ^ 63 < b.bytes))
to_power_of_two_lem b = elim (dec_lt 1 b.bytes) [
  | yes large ↦ elim (Option-cases (next_power_of_two b.bytes)) [
    | inl e ↦
        let result = to_power_of_two_large b none large e in
        (
          (λ c h. absurd (cc (result, h))),
          ((λ _. (next_power_of_two-none b.bytes).0 e), (λ _. result)),
        )
    | inr (p, e) ↦
        let result = to_power_of_two_large b (some p) large e in
        (
          (λ c h.
              let same : p ≡ c.bytes = ap bytes_of (some_inj (sym result ∙ h)) in
              subst (IsLeastPower b.bytes) same (found-IsLeastPower b.bytes p e)),
          (
            (λ h. absurd (cc (result, h))),
            (λ big. absurd (cc (e, (next_power_of_two-none b.bytes).1 big))),
          ),
        )
  ]
  | no small ↦
      let result = to_power_of_two_small b (omega arith) in
      (
        (λ c h.
            let same : 1 ≡ c.bytes = ap bytes_of (some_inj (sym result ∙ h)) in
            subst (IsLeastPower b.bytes) same (one-IsLeastPower b.bytes (omega arith))),
        ((λ h. absurd (cc (result, h))), (λ big. absurd (omega arith))),
      )
]
  where
    bytes_of : ByteSize → ℕ
    bytes_of x = x.bytes

    some_inj : {x y : ByteSize} → some x ≡ some y → x ≡ y
    some_inj e = cc

    one-IsLeastPower : (n : ℕ) → n ≤ 1 → IsLeastPower n 1
    one-IsLeastPower n h = record {
      exponent = 0;
      is_power = refl;
      in_word = omega arith;
      holds = h;
      least = λ j _. one-le-pow j 2 (omega arith);
    }
