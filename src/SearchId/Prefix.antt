-- ===== src/SearchId/Prefix.antt =====
-- docs/search/search.js, `convertToId`: its codes are told apart, also as prefixes of one another.
use tiny_swarm.Prelude.{
  ℕ, zero, suc, ◌/◌, ◌%◌, ◌≤◌, ◌<◌, ◌≡◌, refl, sym, ap, ◌∙◌, Bool, true, false, ◌&&◌, [], ◌∷◌, ◌++◌,
  append-nil, append_assoc, arith, ◌==◌, Bool-cases, inl, inr, All,
}
use tiny_swarm.Text.{Str, is_prefix}
use tiny_swarm.Text.Digits.{digit, digits_from, to_string}
use tiny_swarm.SearchId.{is_plain, escape_unit, convert_from, convert_to_id, IsUnit}

to_string-small : (c : ℕ) → c < 16 → to_string 16 c ≡ digit c ∷ []
unfolding to_string digits_from
to_string-small zero h = refl
to_string-small (suc c) h = ground arith

to_string-two : (c : ℕ) → 16 ≤ c → c < 256 → to_string 16 c ≡ digit (c / 16) ∷ digit (c % 16) ∷ []
unfolding to_string digits_from
to_string-two zero h k = absurd (omega arith)
to_string-two (suc zero) h k = absurd (omega arith)
to_string-two (suc (suc c)) h k = ground arith

escape-plain : (c : ℕ) → is_plain c ≡ true → escape_unit c ≡ c ∷ []
unfolding escape_unit
escape-plain c h = rw h

plain-or-ascii : (c : ℕ) → IsUnit c → is_plain c ≡ false → c < 128
unfolding is_plain
plain-or-ascii c u h = ground arith

plain-ne-mark : (c : ℕ) → is_plain c ≡ true → (c == b'_') ≡ false
unfolding is_plain
plain-ne-mark c h = ground arith

plain-ne : (c d : ℕ) → is_plain c ≡ true → is_plain d ≡ false → (c == d) ≡ false
unfolding is_plain
plain-ne c d p q = ground arith

digit-zero : digit 0 ≡ b'0'
unfolding digit
digit-zero = refl

-- Every unit that is not kept is written with its two hex digits.
escape-ascii :
    (c : ℕ)
    → IsUnit c
    → is_plain c ≡ false
    → escape_unit c ≡ b'_' ∷ digit (c / 16) ∷ digit (c % 16) ∷ []
unfolding escape_unit is_prefix
escape-ascii c u h =
    ground (arith, plain-or-ascii c u h, to_string-small c, to_string-two c, digit-zero)

digit-eq : (a b : ℕ) → (digit a == digit b) ≡ (a == b)
unfolding digit
digit-eq a b = ground arith

nibbles-eq : (c d : ℕ) (r : Bool) → (c / 16 == d / 16 && (c % 16 == d % 16 && r)) ≡ (c == d && r)
nibbles-eq c d r = ground arith

-- One code decides as a prefix what its unit decides.
unit-prefix :
    (c d : ℕ) (p s : Str)
    → IsUnit c
    → IsUnit d
    → is_prefix (escape_unit c ++ p) (escape_unit d ++ s) ≡ (c == d && is_prefix p s)
unfolding is_prefix
unit-prefix c d p s uc ud = elim (Bool-cases (is_plain c)) [
  | inl pc ↦ elim (Bool-cases (is_plain d)) [
    | inl pd ↦ rw (escape-plain c pc, escape-plain d pd) refl
    | inr qd ↦
        rw (escape-plain c pc, escape-ascii d ud qd)
          (ground (arith, plain-ne-mark c pc, plain-ne c d pc qd))
  ]
  | inr qc ↦ elim (Bool-cases (is_plain d)) [
    | inl pd ↦
        rw (escape-ascii c uc qc, escape-plain d pd)
          (ground (arith, plain-ne-mark d pd, plain-ne d c pd qc))
    | inr qd ↦
        rw (escape-ascii c uc qc, escape-ascii d ud qd)
          (rw (digit-eq (c / 16), digit-eq (c % 16)) (nibbles-eq c d (is_prefix p s)))
  ]
]

convert_from-append : (r s : Str) → convert_from r s ≡ r ++ convert_to_id s
unfolding convert_to_id convert_from
convert_from-append r [] = sym (append-nil r)
convert_from-append r (c ∷ s) =
    convert_from-append (r ++ escape_unit c) s
    ∙ append_assoc r (escape_unit c) (convert_to_id s)
    ∙ ap (λ t. r ++ t) (sym (convert_from-append (escape_unit c) s))

pub convert_to_id-cons :
    (c : ℕ) (s : Str) → convert_to_id (c ∷ s) ≡ escape_unit c ++ convert_to_id s
convert_to_id-cons c s = unfold convert_to_id convert_from in convert_from-append (escape_unit c) s

unit-nonempty : (c : ℕ) (t : Str) → IsUnit c → is_prefix (escape_unit c ++ t) [] ≡ false
unit-nonempty c t u = elim (Bool-cases (is_plain c)) [
  | inl pc ↦ rw (escape-plain c pc) (unfold is_prefix in refl)
  | inr qc ↦ rw (escape-ascii c u qc) (unfold is_prefix in refl)
]

-- On texts of UTF-16 code units, the code of one text is a prefix of the code of another exactly
-- when the first text is a prefix of the second.
pub is_prefix-convert_to_id :
    (p s : Str)
    → All IsUnit p
    → All IsUnit s
    → is_prefix (convert_to_id p) (convert_to_id s) ≡ is_prefix p s
unfolding is_prefix
is_prefix-convert_to_id [] s up us = unfold convert_to_id convert_from in refl
is_prefix-convert_to_id (c ∷ p) [] up us =
    rw (convert_to_id-cons c p) (unfold convert_to_id convert_from in unit-nonempty c _ up.0)
is_prefix-convert_to_id (c ∷ p) (d ∷ s) up us =
    rw (convert_to_id-cons c p, convert_to_id-cons d s, unit-prefix c d _ _ up.0 us.0)
      (ap (λ b. c == d && b) (is_prefix-convert_to_id p s up.1 us.1))
