-- ===== src/Text/Stream.antt =====
-- The C++ streams that manager/ reads its records by: `>>` of words and integers, and `getline`.
-- A stream is the text that is left; none is a stream whose last extraction has failed, which reads
-- nothing any more and leaves the variable as it was.
pub mod Words
pub mod Integers
use tiny_swarm.Prelude.{
  ℕ, zero, suc, ◌+◌, ◌*◌, ◌-◌, Bool, true, false, ◌&&◌, ◌||◌, List, [], ◌∷◌, ◌++◌, Option, none,
  some, leb, ◌==◌, if◌then◌else◌,
}
use tiny_swarm.Prelude.Int.{ℤ, pos, negsuc}
use tiny_swarm.Text.{Str}
use tiny_swarm.Text.Digits.{to_string}

abbrev pub Stream : Type 0
Stream = Option Str

-- `isspace` in the C locale
unfoldable pub is_space : ℕ → Bool
is_space c = c == b' ' || (leb 9 c && leb c 13)

unfoldable pub skip_space : Str → Str
unfolding is_space
skip_space [] = []
skip_space (c ∷ s) = if is_space c then skip_space s else c ∷ s

-- The characters up to the next white space, and those from there on.
unfoldable pub split_word : Str → Str × Str
unfolding is_space
split_word [] = ([], [])
split_word (c ∷ s) =
    let (word, rest) = split_word s in if is_space c then ([], c ∷ s) else (c ∷ word, rest)

abbrev word_or : Str → Str → Str × Stream
word_or old [] = (old, none)
word_or old (c ∷ s) = let (word, rest) = split_word (c ∷ s) in (word, some rest)

-- `stream >> word`
unfoldable pub get_word : Stream → Str → Str × Stream
unfolding skip_space split_word
get_word none old = (old, none)
get_word (some s) old = word_or old (skip_space s)

unfoldable pub is_digit : ℕ → Bool
is_digit c = leb b'0' c && leb c b'9'

-- The number that the digits at the start of a text write behind those of `n`, and the rest.
unfoldable pub read_digits : ℕ → Str → ℕ × Str
unfolding is_digit
read_digits n [] = (n, [])
read_digits n (c ∷ s) =
    let rest = read_digits (n * 10 + (c - b'0')) s in if is_digit c then rest else (n, c ∷ s)

abbrev pub max_int : ℕ
max_int = 0x7FFFFFFF

-- An `int` that does not fit becomes the nearest one, and the extraction fails.
abbrev pub in_range : ℤ → ℤ × Stream → ℤ × Stream
in_range (pos n) got = if leb n max_int then got else (pos max_int, none)
in_range (negsuc n) got = if leb n max_int then got else (negsuc max_int, none)

abbrev pub signed : Bool → ℕ → ℤ
signed false n = pos n
signed true zero = pos 0
signed true (suc n) = negsuc n

-- Behind the sign: without a digit the integer becomes 0 and the extraction fails.
abbrev pub unsigned_part : Bool → Str → ℤ × Stream
unsigned_part negative [] = (pos 0, none)
unsigned_part negative (c ∷ s) =
    let (n, rest) = read_digits 0 (c ∷ s) in
    if is_digit c
    then in_range (signed negative n) (signed negative n, some rest)
    else (pos 0, none)

abbrev pub int_or : ℤ → Str → ℤ × Stream
int_or old [] = (old, none)
int_or old (c ∷ s) =
    if c == b'-'
    then unsigned_part true s
    else if c == b'+'
    then unsigned_part false s
    else unsigned_part false (c ∷ s)

-- `stream >> integer`
unfoldable pub get_int : Stream → ℤ → ℤ × Stream
unfolding skip_space read_digits is_digit
get_int none old = (old, none)
get_int (some s) old = int_or old (skip_space s)

-- `std::to_string` of an `int`
unfoldable pub print_int : ℤ → Str
unfolding to_string
print_int (pos n) = to_string 10 n
print_int (negsuc n) = b'-' ∷ to_string 10 (suc n)

-- `while (getline(stream, item, delimiter))`: the items, where `item` is the start of the first. An
-- item without a delimiter at the end of the text counts if it is not empty.
unfoldable pub get_items : ℕ → Str → Str → List Str
get_items delimiter [] [] = []
get_items delimiter (i ∷ item) [] = (i ∷ item) ∷ []
get_items delimiter item (c ∷ s) =
    let next = get_items delimiter [] s in
    let more = get_items delimiter (item ++ (c ∷ [])) s in
    if c == delimiter then item ∷ next else more
