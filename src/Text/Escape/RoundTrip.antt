-- ===== src/Text/Escape/RoundTrip.antt =====
-- `unescape` reads back what `escape` wrote.
use tiny_swarm.Prelude.{
  ℕ, suc, ◌+◌, ◌*◌, ◌/◌, ◌%◌, ◌<◌, ◌≡◌, refl, ap, ◌∙◌, true, false, [], ◌∷◌, some, ◌==◌, ltb, arith,
  Bool-cases, inl, inr, All, ltb→lt,
}
use tiny_swarm.Text.{Str}
use tiny_swarm.Text.Escape.{
  is_unescaped, upper_digit, escape, hex_value, hex_digits, percent, unescape_from, unescape,
}

hex_value-upper_digit : (d : ℕ) → d < 16 → hex_value (upper_digit d) ≡ some d
unfolding hex_value upper_digit
hex_value-upper_digit d h = ground arith

upper_digit-ne-u : (d : ℕ) → d < 16 → (upper_digit d == b'u') ≡ false
unfolding upper_digit
upper_digit-ne-u d h = ground arith

unescaped-ne-percent : (c : ℕ) → is_unescaped c ≡ true → (c == b'%') ≡ false
unfolding is_unescaped
unescaped-ne-percent c h = ground arith

-- The digits of a number below 16 ^ n, read back one by one.
hex_digits-step :
    (n v d : ℕ) (s : Str)
    → d < 16
    → hex_digits (suc n) v (upper_digit d ∷ s) ≡ hex_digits n (v * 16 + d) s
unfolding hex_digits
hex_digits-step n v d s h = rw (hex_value-upper_digit d h, hex_digits)

two-digits :
    (c : ℕ) (s : Str)
    → c < 256
    → hex_digits 2 0 (upper_digit (c / 16) ∷ upper_digit (c % 16) ∷ s) ≡ some c
two-digits c s h =
    hex_digits-step 1 0 (c / 16) _ (omega arith)
    ∙ hex_digits-step 0 _ (c % 16) s (omega arith)
    ∙ unfold hex_digits in ap some (omega arith)

percent-two :
    (c : ℕ) (s : Str) → c < 256 → percent (upper_digit (c / 16) ∷ upper_digit (c % 16) ∷ s) ≡ (c, 2)
unfolding percent
percent-two c s h = rw (upper_digit-ne-u (c / 16) (omega arith), percent, two-digits c s h)

four-digits :
    (c : ℕ) (s : Str)
    → c < 65536
    → hex_digits 4 0 (
        upper_digit (c / 4096)
        ∷ upper_digit (c / 256 % 16)
        ∷ upper_digit (c / 16 % 16)
        ∷ upper_digit (c % 16)
        ∷ s)
      ≡ some c
four-digits c s h =
    hex_digits-step 3 0 (c / 4096) _ (omega arith)
    ∙ hex_digits-step 2 _ (c / 256 % 16) _ (omega arith)
    ∙ hex_digits-step 1 _ (c / 16 % 16) _ (omega arith)
    ∙ hex_digits-step 0 _ (c % 16) s (omega arith)
    ∙ unfold hex_digits in ap some (omega arith)

percent-four :
    (c : ℕ) (s : Str)
    → c < 65536
    → percent (
        b'u'
        ∷ upper_digit (c / 4096)
        ∷ upper_digit (c / 256 % 16)
        ∷ upper_digit (c / 16 % 16)
        ∷ upper_digit (c % 16)
        ∷ s)
      ≡ (c, 5)
unfolding percent
percent-four c s h = rw (four-digits c s h, percent)

-- What one round of `unescape` does at the code of one unit.
unescape-plain :
    (c : ℕ) (s : Str) → is_unescaped c ≡ true → unescape_from 0 (c ∷ s) ≡ c ∷ unescape_from 0 s
unfolding unescape_from
unescape-plain c s h = rw (unescaped-ne-percent c h)

unescape-two :
    (c : ℕ) (s : Str)
    → c < 256
    → unescape_from 0 (b'%' ∷ upper_digit (c / 16) ∷ upper_digit (c % 16) ∷ s)
      ≡ c ∷ unescape_from 0 s
unfolding unescape_from
unescape-two c s h =
    ap (λ (p : ℕ × ℕ). p.0 ∷ unescape_from p.1 (upper_digit (c / 16) ∷ upper_digit (c % 16) ∷ s))
      (percent-two c s h)

unescape-four :
    (c : ℕ) (s : Str)
    → c < 65536
    → unescape_from 0 (
        b'%'
        ∷ b'u'
        ∷ upper_digit (c / 4096)
        ∷ upper_digit (c / 256 % 16)
        ∷ upper_digit (c / 16 % 16)
        ∷ upper_digit (c % 16)
        ∷ s)
      ≡ c ∷ unescape_from 0 s
unfolding unescape_from
unescape-four c s h =
    ap
      (λ (p : ℕ × ℕ).
        p.0
        ∷ unescape_from p.1 (
            b'u'
            ∷ upper_digit (c / 4096)
            ∷ upper_digit (c / 256 % 16)
            ∷ upper_digit (c / 16 % 16)
            ∷ upper_digit (c % 16)
            ∷ s))
      (percent-four c s h)

-- On texts of UTF-16 code units `unescape` undoes `escape`.
pub unescape-escape : (s : Str) → All (λ c. c < 65536) s → unescape (escape s) ≡ s
unfolding unescape escape
unescape-escape [] u = refl
unescape-escape (c ∷ s) u = elim (Bool-cases (is_unescaped c)) [
  | inl plain ↦
      rw plain (unescape-plain c (escape s) plain ∙ ap (λ t. c ∷ t) (unescape-escape s u.1))
  | inr coded ↦ elim (Bool-cases (ltb c 256)) [
    | inl small ↦
        rw (coded, small)
          (unescape-two c (escape s) (ltb→lt c 256 small) ∙ ap (λ t. c ∷ t) (unescape-escape s u.1))
    | inr large ↦
        rw (coded, large) (unescape-four c (escape s) u.0 ∙ ap (λ t. c ∷ t) (unescape-escape s u.1))
  ]
]
