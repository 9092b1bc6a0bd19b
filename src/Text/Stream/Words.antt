-- ===== src/Text/Stream/Words.antt =====
-- The streams of manager/: reading a word that stands in front of white space or the end.
use tiny_swarm.Prelude.{◌≡◌, ◌≢◌, refl, Bool, true, false, [], ◌∷◌, ◌++◌, some, All, arith}
use tiny_swarm.Text.{Str}
use tiny_swarm.Text.Stream.{is_space, skip_space, split_word, get_word}

-- A text without white space, and one that is not empty.
abbrev pub IsSolid : Str → Type 0
IsSolid s = All (λ c. is_space c ≡ false) s

pub record IsWord (s : Str) : Type 0 where
  pub solid : IsSolid s
  pub filled : s ≢ []

-- Nothing of a word stands at the start of the text.
abbrev pub ends_word : Str → Bool
ends_word [] = true
ends_word (c ∷ s) = is_space c

pub split_word-append :
    (w rest : Str) → IsSolid w → ends_word rest ≡ true → split_word (w ++ rest) ≡ (w, rest)
unfolding split_word
split_word-append [] [] h e = refl
split_word-append [] (c ∷ rest) h e = ground (arith, e)
split_word-append (c ∷ w) rest h e = ground (arith, h.0, split_word-append w rest h.1 e)

pub get_word-append :
    (w rest old : Str)
    → IsWord w
    → ends_word rest ≡ true
    → get_word (some (w ++ rest)) old ≡ (w, some rest)
unfolding get_word skip_space
get_word-append [] rest old h e = absurd (h.filled refl)
get_word-append (c ∷ w) rest old h e =
    ground (arith, h.solid.0, split_word-append (c ∷ w) rest h.solid e)

-- One blank in front of a word is skipped.
pub get_word-blank :
    (w rest old : Str)
    → IsWord w
    → ends_word rest ≡ true
    → get_word (some (b' ' ∷ (w ++ rest))) old ≡ (w, some rest)
unfolding get_word skip_space is_space
get_word-blank w rest old h e = get_word-append w rest old h e
