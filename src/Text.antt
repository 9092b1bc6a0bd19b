-- ===== src/Text.antt =====
-- JavaScript strings as the lists of their UTF-16 code units, and the string functions that the
-- pages' scripts call: comparison, `toString` in a base, `toLowerCase`, `replace` of spaces.
pub mod Digits
pub mod Escape
pub mod Stream
use Prim.Native.Char.{code}
use Prim.Native.String.{String}
use tiny_swarm.Prelude.{
  ℕ, zero, suc, ◌+◌, ◌-◌, ◌≡◌, refl, ◌↔◌, Bool, true, false, ◌&&◌, ◌||◌, List, [], ◌∷◌, ◌++◌, map,
  arith, ltb, leb, ◌==◌, if◌then◌else◌, ==_iff, Bool-cases, inl, inr, ap, length,
}

abbrev pub Str : Type 0
Str = List ℕ

-- The code units of a literal.
abbrev pub codes : String → Str
codes String.[] = []
codes (String.◌∷◌ c s) = code c ∷ codes s

infix 50 ◌==s◌
unfoldable pub ◌==s◌ : Str → Str → Bool
[] ==s [] = true
[] ==s (d ∷ t) = false
(c ∷ s) ==s [] = false
(c ∷ s) ==s (d ∷ t) = c == d && s ==s t

pub ==s-eq : (s t : Str) → (s ==s t) ≡ true → s ≡ t
unfolding ◌==s◌
==s-eq [] [] h = refl
==s-eq [] (d ∷ t) h = cc
==s-eq (c ∷ s) [] h = cc
==s-eq (c ∷ s) (d ∷ t) h = ground (arith, ==s-eq s t)

pub ==s-refl : (s : Str) → (s ==s s) ≡ true
unfolding ◌==s◌
==s-refl [] = refl
==s-refl (c ∷ s) = ground (arith, ==s-refl s)

-- `s.substr(0, p.length) == p`
unfoldable pub is_prefix : Str → Str → Bool
is_prefix [] s = true
is_prefix (c ∷ p) [] = false
is_prefix (c ∷ p) (d ∷ s) = c == d && is_prefix p s

-- `replace(/ +/g, "")`
unfoldable pub strip_spaces : Str → Str
strip_spaces [] = []
strip_spaces (c ∷ s) = if c == b' ' then strip_spaces s else c ∷ strip_spaces s

-- `replace(/^ +/, "")`
unfoldable pub strip_leading : Str → Str
strip_leading [] = []
strip_leading (c ∷ s) = if c == b' ' then strip_leading s else c ∷ s

-- `replace(/ +$/, "")`
unfoldable pub strip_trailing : Str → Str
strip_trailing [] = []
strip_trailing (c ∷ s) =
    let rest = strip_trailing s in if c == b' ' && (rest ==s []) then [] else c ∷ rest

-- `toLowerCase`: the ASCII letters here, and `wide` for the code units past ASCII, whose mapping is
-- the Unicode table of the engine.
unfoldable pub lower_unit : (ℕ → ℕ) → ℕ → ℕ
lower_unit wide c = if leb b'A' c && leb c b'Z' then c + 32 else if ltb c 128 then c else wide c

abbrev pub to_lower : (ℕ → ℕ) → Str → Str
to_lower wide = map (lower_unit wide)
