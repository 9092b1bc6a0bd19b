-- ===== src/Dynsections/Levels.antt =====
-- docs/dynsections.js, `toggleLevel`: the rows that it shows, and their parents.
use tiny_swarm.Prelude.{
  ℕ, zero, suc, ◌+◌, ◌≡◌, refl, sym, ap, ◌∙◌, Bool, true, false, ◌&&◌, ◌||◌, not, List, [], ◌∷◌,
  ◌++◌, some, leb, get_elem?, map, drop, length, length-map, length-append, some-injective, arith,
}
use tiny_swarm.Text.{Str, codes, lower_unit, to_lower, is_prefix, ◌==s◌, ==s-eq}
use tiny_swarm.Dynsections.Directory.{
  TableRow, Directory, level_of, level_row, ends_number, is_sub, is_child_id, toggle_level,
  all_level_spans,
}
use tiny_swarm.Dynsections.Stripes.{update_stripes_lem}

level_of-append : (s t : Str) → level_of (s ++ t) ≡ level_of s + level_of t
unfolding level_of
level_of-append [] t = omega arith
level_of-append (c ∷ s) t = ground (arith, level_of-append s t)

-- The case of letters has no effect on the level.
level_of-lower : (s : Str) → level_of (to_lower (λ c. c) s) ≡ level_of s
unfolding level_of lower_unit
level_of-lower [] = refl
level_of-lower (c ∷ s) = ground (arith, level_of-lower s)

level_of-empty : (s : Str) → (s ==s []) ≡ true → level_of s ≡ 0
unfolding level_of
level_of-empty s h = ap level_of (==s-eq s [] h)

level_of-ends_number : (s : Str) → ends_number s ≡ true → level_of s ≡ 1
unfolding level_of ends_number
level_of-ends_number [] h = cc
level_of-ends_number (c ∷ s) h = ground (arith, level_of-ends_number s, level_of-empty s)

level_of-is_sub : (s : Str) → is_sub s ≡ true → level_of s ≡ 1
unfolding level_of is_sub
level_of-is_sub [] h = cc
level_of-is_sub (c ∷ s) h = ground (arith, level_of-ends_number s)

level_of-prefix :
    (p s : Str) → is_prefix p s ≡ true → level_of s ≡ level_of p + level_of (drop (length p) s)
unfolding level_of is_prefix
level_of-prefix [] s h = omega arith
level_of-prefix (c ∷ p) [] h = cc
level_of-prefix (c ∷ p) (d ∷ s) h = ground (arith, level_of-prefix p s)

length-lower : (s : Str) → length (to_lower (λ c. c) s) ≡ length s
length-lower s = length-map _ s

drop-lower : (n : ℕ) (s : Str) → drop n (to_lower (λ c. c) s) ≡ to_lower (λ c. c) (drop n s)
drop-lower zero s = refl
drop-lower (suc n) [] = refl
drop-lower (suc n) (c ∷ s) = drop-lower n s

length-row : (id : Str) → length (codes "row_" ++ id) ≡ length id + 4
length-row id = omega (arith, length-append (codes "row_") id)

and_both : (a b : Bool) → (a && b) ≡ true → (a ≡ true) × (b ≡ true)
and_both true b h = (refl, h)
and_both false b h = cc

-- The id of a child row is one level below that of its parent.
level_of-child :
    (id child : Str)
    → is_child_id id child ≡ true
    → level_of child ≡ suc (level_of (codes "row_" ++ id))
unfolding is_child_id
level_of-child id child h =
    let row = codes "row_" ++ id in
    let (starts, ends) = and_both _ _ h in
    let split = level_of-prefix (to_lower (λ c. c) row) (to_lower (λ c. c) child) starts in
    let rest : level_of (drop (length (to_lower (λ c. c) row)) (to_lower (λ c. c) child)) ≡ 1 =
      ap (λ n. level_of (drop n (to_lower (λ c. c) child))) (length-lower row ∙ length-row id)
      ∙ ap level_of (drop-lower (length id + 4) child)
      ∙ level_of-lower _
      ∙ level_of-is_sub _ ends in
    omega (arith, split, rest, level_of-lower child, level_of-lower row)

get_elem?-map :
    (f : TableRow → TableRow) (rows : List TableRow) (i : ℕ) (row : TableRow)
    → get_elem? rows i ≡ some row
    → get_elem? (map f rows) i ≡ some (f row)
get_elem?-map f [] i row h = cc
get_elem?-map f (r ∷ rows) zero row h = ap (λ r. some (f r)) (some-injective _ _ h)
get_elem?-map f (r ∷ rows) (suc i) row h = get_elem?-map f rows i row h

level_row-shown :
    (level : ℕ) (row : TableRow) → (level_row level row).shown ≡ leb (level_of row.id) (level + 1)
unfolding level_row
level_row-shown level row = ground arith

level_row-id : (level : ℕ) (row : TableRow) → (level_row level row).id ≡ row.id
unfolding level_row
level_row-id level row = ground arith

shown_above :
    (n m limit : ℕ) (parent child : Bool)
    → parent ≡ leb n limit
    → child ≡ leb m limit
    → m ≡ suc n
    → (not child || parent) ≡ true
shown_above n m limit parent child hp hc e = ground arith

-- `toggleLevel` shows exactly the rows down to the level: those whose id has at most one `_` more than
-- the number of the level says. It keeps every row at its place.
pub toggle_level_lem :
    (level : ℕ) (t : Directory) (i : ℕ) (row : TableRow)
    → get_elem? t.rows i ≡ some row
    → (row' : TableRow) × (get_elem? (toggle_level level t).rows i ≡ some row')
      × (row'.id ≡ row.id)
      × (row'.shown ≡ leb (level_of row.id) (level + 1))
unfolding toggle_level
toggle_level_lem level t i row h = (
  _,
  update_stripes_lem
      (record { rows = map (level_row level) t.rows; spans = all_level_spans level t.rows t.spans })
      i (level_row level row) (get_elem?-map (level_row level) t.rows i row h),
  level_row-id level row,
  level_row-shown level row,
)

-- Behind `toggleLevel` no row is shown whose parent is hidden.
pub toggle_level-parents :
    (level : ℕ) (t : Directory) (id : Str) (i k : ℕ) (parent child : TableRow)
    → get_elem? t.rows i ≡ some parent
    → get_elem? t.rows k ≡ some child
    → parent.id ≡ codes "row_" ++ id
    → is_child_id id child.id ≡ true
    → (parent' child' : TableRow) × (get_elem? (toggle_level level t).rows i ≡ some parent')
      × (get_elem? (toggle_level level t).rows k ≡ some child')
      × ((not child'.shown || parent'.shown) ≡ true)
toggle_level-parents level t id i k parent child hp hc e h =
    let (parent', at_i, _, shown_p) = toggle_level_lem level t i parent hp in
    let (child', at_k, _, shown_c) = toggle_level_lem level t k child hc in
    let below = level_of-child id child.id h in
    let same = ap level_of e in
    (parent', child', at_i, at_k, shown_above _ _ _ _ _ shown_p shown_c (below ∙ ap suc (sym same)))
