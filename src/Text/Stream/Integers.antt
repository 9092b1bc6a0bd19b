-- ===== src/Text/Stream/Integers.antt =====
-- The streams of manager/: reading an integer that `std::to_string` has written.
use native.Mathlib.Nat.{mod-lt}
use tiny_swarm.Prelude.{
  ℕ, zero, suc, ◌+◌, ◌*◌, ◌-◌, ◌/◌, ◌%◌, ◌≤◌, ◌<◌, ◌≡◌, ◌≢◌, refl, ap, sym, ◌∙◌, Bool, true, false,
  List, [], ◌∷◌, ◌++◌, some, ltb, All, arith, Bool-cases, inl, inr, if_holds, if_true, if_false,
  subst, ltb→lt,
}
use tiny_swarm.Prelude.Int.{ℤ, pos, negsuc}
use tiny_swarm.Text.{Str}
use tiny_swarm.Text.Digits.{
  digit, digits_from, to_string, digit_value, value_from, value-to_string, half-le,
}
use tiny_swarm.Text.Stream.{
  Stream, is_space, skip_space, is_digit, read_digits, max_int, signed, get_int, print_int,
  in_range, unsigned_part, int_or,
}
use tiny_swarm.Text.Stream.Words.{IsSolid, IsWord, ends_word}

abbrev pub AreDigits : Str → Type 0
AreDigits s = All (λ c. is_digit c ≡ true) s

digit-is_digit : (d : ℕ) → d < 10 → is_digit (digit d) ≡ true
unfolding is_digit digit
digit-is_digit d h = ground arith

digits_from-AreDigits :
    (f n : ℕ) (acc : List ℕ) → n ≤ f → AreDigits acc → AreDigits (digits_from f 10 n acc)
unfolding digits_from
digits_from-AreDigits zero n acc h a = (digit-is_digit n (omega arith), a)
digits_from-AreDigits (suc f) n acc h a = elim (Bool-cases (ltb n 10)) [
  | inl small ↦ subst AreDigits (sym (if_true _ _ small)) (digit-is_digit n (ltb→lt n 10 small), a)
  | inr big ↦ subst AreDigits (sym (if_false _ _ big)) (
      digits_from-AreDigits f (n / 10) (digit (n % 10) ∷ acc) (half-le f 10 n (omega arith) h)
        (digit-is_digit (n % 10) (mod-lt n (omega arith)), a))
]

pub to_string-AreDigits : (n : ℕ) → AreDigits (to_string 10 n)
unfolding to_string
to_string-AreDigits n = digits_from-AreDigits n n [] (omega arith) tt

digits_from-filled : (f n : ℕ) (acc : List ℕ) → digits_from f 10 n acc ≢ []
unfolding digits_from
digits_from-filled zero n acc = λ e. cc
digits_from-filled (suc f) n acc =
    if_holds (λ s. s ≢ []) (ltb n 10) _ _ (λ e. cc) (digits_from-filled f (n / 10) _)

read_digits-append :
    (n : ℕ) (ds rest : Str)
    → AreDigits ds
    → ends_word rest ≡ true
    → read_digits n (ds ++ rest) ≡ (value_from 10 n ds, rest)
unfolding read_digits value_from is_digit is_space digit_value
read_digits-append n [] [] h e = refl
read_digits-append n [] (c ∷ rest) h e = ground (arith, e)
read_digits-append n (c ∷ ds) rest h e =
    ground (arith, h.0, read_digits-append (n * 10 + (c - 48)) ds rest h.1 e)

digit-solid : (c : ℕ) → is_digit c ≡ true → is_space c ≡ false
unfolding is_digit is_space
digit-solid c h = ground arith

digits-IsSolid : (ds : Str) → AreDigits ds → IsSolid ds
digits-IsSolid [] h = tt
digits-IsSolid (c ∷ ds) h = (digit-solid c h.0, digits-IsSolid ds h.1)

-- An integer that an `int` can hold.
abbrev pub IsInt : ℤ → Type 0
IsInt (pos n) = n ≤ max_int
IsInt (negsuc n) = n ≤ max_int

pub print_int-IsWord : (z : ℤ) → IsWord (print_int z)
unfolding print_int is_space to_string
print_int-IsWord (pos n) = record {
  solid = digits-IsSolid _ (to_string-AreDigits n);
  filled = digits_from-filled n n [];
}
print_int-IsWord (negsuc n) = record {
  solid = (refl, digits-IsSolid _ (to_string-AreDigits (suc n)));
  filled = λ e. cc;
}

read_digits-to_string :
    (n : ℕ) (rest : Str)
    → ends_word rest ≡ true
    → read_digits 0 (to_string 10 n ++ rest) ≡ (n, rest)
read_digits-to_string n rest e =
    read_digits-append 0 (to_string 10 n) rest (to_string-AreDigits n) e
    ∙ ap (λ v. (v, rest)) (value-to_string 10 n (omega arith))

in_range_lem : (z : ℤ) (got : ℤ × Stream) → IsInt z → in_range z got ≡ got
in_range_lem (pos n) got h = ground arith
in_range_lem (negsuc n) got h = ground arith

-- The digits of a number are read as it, with its sign.
unsigned_part-digits :
    (negative : Bool) (n : ℕ) (ds rest : Str)
    → AreDigits ds
    → ds ≢ []
    → read_digits 0 (ds ++ rest) ≡ (n, rest)
    → IsInt (signed negative n)
    → unsigned_part negative (ds ++ rest) ≡ (signed negative n, some rest)
unsigned_part-digits negative n [] rest h ne r k = absurd (ne refl)
unsigned_part-digits negative n (c ∷ ds) rest h ne r k =
    if_true _ _ h.0
    ∙ ap (λ got. in_range (signed negative got.0) (signed negative got.0, some got.1)) r
    ∙ in_range_lem (signed negative n) (signed negative n, some rest) k

int_or-digits :
    (old : ℤ) (ds rest : Str)
    → AreDigits ds
    → ds ≢ []
    → int_or old (skip_space (ds ++ rest)) ≡ unsigned_part false (ds ++ rest)
unfolding skip_space is_space is_digit
int_or-digits old [] rest h ne = absurd (ne refl)
int_or-digits old (c ∷ ds) rest h ne = ground (arith, h.0)

-- `>>` reads back the integer that `std::to_string` has written in front of white space or the end.
pub get_int-print_int :
    (z old : ℤ) (rest : Str)
    → IsInt z
    → ends_word rest ≡ true
    → get_int (some (b' ' ∷ (print_int z ++ rest))) old ≡ (z, some rest)
unfolding get_int print_int skip_space is_space
get_int-print_int (pos n) old rest h e =
    int_or-digits old (to_string 10 n) rest (to_string-AreDigits n) (digits_from-filled n n [])
    ∙ unsigned_part-digits false n (to_string 10 n) rest (to_string-AreDigits n)
        (digits_from-filled n n []) (read_digits-to_string n rest e) h
get_int-print_int (negsuc n) old rest h e =
    unsigned_part-digits true (suc n) (to_string 10 (suc n)) rest (to_string-AreDigits (suc n))
      (digits_from-filled (suc n) (suc n) []) (read_digits-to_string (suc n) rest e) h
