-- ===== src/Text/Escape.antt =====
-- `escape` and `unescape` of the language, by which the search panel hands a value to the results
-- page in its URL.
pub mod RoundTrip
use tiny_swarm.Prelude.{
  Option, none, some, zero, suc, ◌-◌, ◌*◌, ℕ, ◌+◌, ◌/◌, ◌%◌, Bool, ◌&&◌, ◌||◌, [], ◌∷◌, ◌++◌, ltb,
  leb, ◌==◌, if◌then◌else◌,
}
use tiny_swarm.Text.{Str}

-- A-Z a-z 0-9 @ * _ + - . /
unfoldable pub is_unescaped : ℕ → Bool
is_unescaped c =
    (leb b'A' c && leb c b'Z')
    || (leb b'a' c && leb c b'z')
    || (leb b'0' c && leb c b'9')
    || c == b'@'
    || c == b'*'
    || c == b'_'
    || c == b'+'
    || c == b'-'
    || c == b'.'
    || c == b'/'

-- '0'..'9', 'A'..'F'
unfoldable pub upper_digit : ℕ → ℕ
upper_digit d = if ltb d 10 then b'0' + d else 55 + d

unfoldable pub escape : Str → Str
unfolding is_unescaped upper_digit
escape [] = []
escape (c ∷ s) =
    (if is_unescaped c
      then c ∷ []
      else if ltb c 256
      then b'%' ∷ upper_digit (c / 16) ∷ upper_digit (c % 16) ∷ []
      else b'%'
        ∷ b'u'
        ∷ upper_digit (c / 4096)
        ∷ upper_digit (c / 256 % 16)
        ∷ upper_digit (c / 16 % 16)
        ∷ upper_digit (c % 16)
        ∷ [])
    ++ escape s

-- The value of a hexadecimal digit of either case.
unfoldable pub hex_value : ℕ → Option ℕ
hex_value c =
    if leb b'0' c && leb c b'9'
    then some (c - 48)
    else if leb b'A' c && leb c b'F'
    then some (c - 55)
    else if leb b'a' c && leb c b'f'
    then some (c - 87)
    else none

-- `n` hexadecimal digits at the start of a text, read behind the value `v`.
unfoldable pub hex_digits : ℕ → ℕ → Str → Option ℕ
unfolding hex_value
hex_digits zero v s = some v
hex_digits (suc n) v [] = none
hex_digits (suc n) v (c ∷ s) = elim (hex_value c) [
  | none ↦ none
  | some d ↦ hex_digits n (v * 16 + d) s
]

abbrev behind_u : Str → Option ℕ
behind_u [] = none
behind_u (c ∷ s) = if c == b'u' then hex_digits 4 0 s else none

-- The unit behind a `%`, and how many units of the text encode it.
unfoldable pub percent : Str → ℕ × ℕ
unfolding hex_digits
percent s = elim (behind_u s) [
  | some v ↦ (v, 5)
  | none ↦ elim (hex_digits 2 0 s) [ some v ↦ (v, 2) | none ↦ (b'%', 0) ]
]

-- The loop of `unescape`, which passes over the units that it has read already.
unfoldable pub unescape_from : ℕ → Str → Str
unescape_from skip [] = []
unescape_from (suc skip) (c ∷ s) = unescape_from skip s
unescape_from zero (c ∷ s) =
    let (unit, skip) = if c == b'%' then percent s else (c, 0) in unit ∷ unescape_from skip s

unfoldable pub unescape : Str → Str
unfolding unescape_from percent
unescape s = unescape_from 0 s
