-- ===== src/SearchId.antt =====
-- docs/search/search.js, `convertToId`: the encoding of a text in the ids of the result rows.
-- The ids hold a-z, 0-9 and the code units from 0x80 as they are, and `_` with two hex digits for
-- every other unit.
pub mod Prefix
mod Tests
use tiny_swarm.Prelude.{
  ℕ, zero, suc, ◌+◌, ◌-◌, ◌*◌, ◌/◌, ◌%◌, ◌≤◌, ◌<◌, ◌≡◌, refl, sym, ap, ◌∙◌, Bool, true, false, ◌&&◌,
  ◌||◌, List, [], ◌∷◌, ◌++◌, append-nil, append_assoc, arith, ltb, leb, ◌==◌, if◌then◌else◌,
  Bool-cases, inl, inr, All,
}
use tiny_swarm.Text.{Str, is_prefix}
use tiny_swarm.Text.Digits.{digit, digits_from, to_string}

-- /[a-z0-9\u0080-\uFFFF]/
unfoldable pub is_plain : ℕ → Bool
is_plain c =
    (leb b'a' c && leb c b'z') || (leb b'0' c && leb c b'9') || (leb 0x80 c && leb c 0xFFFF)

unfoldable pub escape_unit : ℕ → Str
unfolding is_plain to_string
escape_unit c =
    if is_plain c
    then c ∷ []
    else if ltb c 16
    then b'_' ∷ b'0' ∷ to_string 16 c
    else b'_' ∷ to_string 16 c

-- The loop over the characters of `search`, with the string built so far.
unfoldable pub convert_from : Str → Str → Str
unfolding escape_unit
convert_from result [] = result
convert_from result (c ∷ search) = convert_from (result ++ escape_unit c) search

unfoldable pub convert_to_id : Str → Str
unfolding convert_from
convert_to_id search = convert_from [] search

-- The values that a code unit takes.
abbrev pub IsUnit : ℕ → Type 0
IsUnit c = c < 65536
