-- ===== src/Text/Digits.antt =====
-- `Number.prototype.toString(base)` on the natural numbers, for the bases 10 and 16.
use native.Mathlib.Nat.{div-add-mod}
use tiny_swarm.Prelude.{
  ℕ, zero, suc, ◌+◌, ◌-◌, ◌*◌, ◌/◌, ◌%◌, ◌≤◌, ◌≡◌, ap, ◌∙◌, List, [], ◌∷◌, arith, ltb,
  if◌then◌else◌, Bool-cases, inl, inr,
}

-- '0'..'9', 'a'..'f'
unfoldable pub digit : ℕ → ℕ
digit d = if ltb d 10 then b'0' + d else 87 + d

-- The digits of `n`, most significant first, in front of `acc`. `n` rounds are enough.
unfoldable pub digits_from : ℕ → ℕ → ℕ → List ℕ → List ℕ
unfolding digit
digits_from zero base n acc = digit n ∷ acc
digits_from (suc f) base n acc =
    let rest = digits_from f base (n / base) (digit (n % base) ∷ acc) in
    if ltb n base then digit n ∷ acc else rest

unfoldable pub to_string : ℕ → ℕ → List ℕ
unfolding digits_from
to_string base n = digits_from n base n []

-- The value that a digit stands for.
unfoldable pub digit_value : ℕ → ℕ
digit_value c = if ltb c 58 then c - 48 else c - 87

pub digit_value-digit : (d : ℕ) → digit_value (digit d) ≡ d
unfolding digit_value digit
digit_value-digit d = ground arith

unfoldable pub value_from : ℕ → ℕ → List ℕ → ℕ
value_from base acc [] = acc
value_from base acc (c ∷ s) = value_from base (acc * base + digit_value c) s

pub half-le : (f base n : ℕ) → 2 ≤ base → n ≤ suc f → n / base ≤ f
half-le f base n hb h = grind (arith, div-add-mod)

step-value : (base n : ℕ) → n / base * base + digit_value (digit (n % base)) ≡ n
step-value base n = rw (digit_value-digit (n % base)) (omega (arith, div-add-mod n base))

last-value : (base n : ℕ) → 0 * base + digit_value (digit n) ≡ n
last-value base n = omega (arith, digit_value-digit n)

value-digits_from :
    (f base n : ℕ) (acc : List ℕ)
    → 2 ≤ base
    → n ≤ f
    → value_from base 0 (digits_from f base n acc) ≡ value_from base n acc
unfolding value_from digits_from
value-digits_from zero base n acc hb h = ap (λ v. value_from base v acc) (last-value base n)
value-digits_from (suc f) base n acc hb h = elim (Bool-cases (ltb n base)) [
  | inl small ↦ rw small (ap (λ v. value_from base v acc) (last-value base n))
  | inr big ↦ rw big (
      value-digits_from f base (n / base) _ hb (half-le f base n hb h)
      ∙ ap (λ v. value_from base v acc) (step-value base n))
]

-- Reading the digits gives the number back.
pub value-to_string : (base n : ℕ) → 2 ≤ base → value_from base 0 (to_string base n) ≡ n
unfolding to_string value_from
value-to_string base n hb = value-digits_from n base n [] hb (omega arith)
