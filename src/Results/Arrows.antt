-- ===== src/Results/Arrows.antt =====
-- docs/search/search.js, `SearchResults.Nav`: the arrows up and down at the link of a row.
use tiny_swarm.Prelude.{
  ℕ, zero, suc, ◌+◌, ◌-◌, ◌<◌, ◌≡◌, ap, ◌∙◌, true, false, ◌&&◌, List, Option, none, some, ltb,
  if◌then◌else◌, length, arith, Bool-cases, inl, inr, subst, if_true, if_false, lt→ltb, dec_lt,
}
use tiny_swarm.Results.Keys.{
  Row, Target, item, item_child, Results, nav_next, nav_prev_below, has_child_link, children_shown,
  links_of, last_child_from, last_child, focus_up, nav_up, focus_down, nav_down,
}
use tiny_swarm.Results.Moves.{
  shown_at, shown_at-past, FindsNext, nav_next-FindsNext, FindsPrev, nav_prev_below-FindsPrev,
}

last_child_from_lem :
    (f n : ℕ) (rows : List Row) (i : ℕ) (target : Target)
    → links_of rows i < n + f
    → last_child_from f n rows i target
      ≡ (if ltb n (links_of rows i) then item_child i (links_of rows i - 1) else target)
unfolding last_child_from
last_child_from_lem zero n rows i target h = ground arith
last_child_from_lem (suc f) n rows i target h = elim (Bool-cases (ltb n (links_of rows i))) [
  | inl more ↦
      rw (more, last_child_from)
        (last_child_from_lem f (n + 1) rows i (item_child i n) (omega arith) ∙ ground arith)
  | inr over ↦ rw (over, last_child_from)
]

-- The link that the loop over the child links of `Item<i>` ends at: the last, or `target` if there
-- are none.
pub last_child_lem :
    (rows : List Row) (i : ℕ) (target : Target)
    → last_child rows i target
      ≡ (if ltb 0 (links_of rows i) then item_child i (links_of rows i - 1) else target)
unfolding last_child
last_child_lem rows i target =
    last_child_from_lem (suc (links_of rows i)) 0 rows i target (omega arith)

shown_at-lt : (rows : List Row) (k : ℕ) → shown_at rows k ≡ true → k < length rows
shown_at-lt rows k s = elim (dec_lt k (length rows)) [
  | yes p ↦ p
  | no p ↦ cc (s, shown_at-past rows k (omega arith))
]

-- The next shown row behind a shown row has that row as the last shown one before it.
prev_of_next :
    (rows : List Row) (i j : ℕ) (o : Option ℕ)
    → shown_at rows i ≡ true
    → FindsNext rows (i + 1) (some j)
    → FindsPrev rows j o
    → o ≡ some i
prev_of_next rows i j none s n p = cc (s, p i (omega arith))
prev_of_next rows i j (some m) s n p = elim (dec_lt i m) [
  | yes above ↦ cc (p.1, n.2 m (omega arith) p.0)
  | no below ↦ elim (dec_lt m i) [
    | yes q ↦ cc (s, p.2 i q (omega arith))
    | no q ↦ ap some (omega arith)
  ]
]

prev_neighbour :
    (rows : List Row) (j : ℕ) (o : Option ℕ)
    → shown_at rows j ≡ true
    → FindsPrev rows (j + 1) o
    → o ≡ some j
prev_neighbour rows j none s p = cc (s, p j (omega arith))
prev_neighbour rows j (some m) s p = elim (dec_lt m j) [
  | yes q ↦ cc (s, p.2 j q (omega arith))
  | no q ↦ ap some (omega arith)
]

-- From a shown row whose children are not displayed the arrow down leads to the next shown row, and
-- the arrow up leads back from there.
pub down_up :
    (i j : ℕ) (r : Results)
    → shown_at r.rows i ≡ true
    → children_shown r.rows i ≡ false
    → nav_next (i + 1) r.rows ≡ some j
    → ((nav_down i r).focus ≡ item j) × ((nav_up j (nav_down i r)).focus ≡ item i)
unfolding nav_down nav_up
down_up i j r s closed next =
    let found = subst (FindsNext r.rows (i + 1)) next (nav_next-FindsNext (i + 1) r.rows) in
    let in_page = shown_at-lt r.rows j found.1 in
    let back =
      prev_of_next r.rows i j _ s found (nav_prev_below-FindsPrev j r.rows (omega arith)) in
    let moved : nav_down i r ≡ record r { focus = item j } =
      if_false _ _ (ap (λ b. b && has_child_link r.rows i 0) closed)
      ∙ ap (λ o. focus_down o r) next in
    (
      ap (λ (q : Results). q.focus) moved,
      ap (λ (q : Results). (nav_up j q).focus) moved
          ∙ ap (focus_up r.rows (j - 1)) back
          ∙ if_false _ _ closed,
    )

-- The arrow up looks for child links at the row just above, also where that row is hidden and the
-- focus goes to a row further up: if the row found displays its children, and the hidden row has
-- child links, the focus goes to the last link inside the hidden row.
pub up_into_hidden_row :
    (i j : ℕ) (r : Results)
    → nav_prev_below (i + 1) r.rows ≡ some j
    → j < i
    → i < length r.rows
    → children_shown r.rows j ≡ true
    → 0 < links_of r.rows i
    → (shown_at r.rows i ≡ false)
      × ((nav_up (i + 1) r).focus ≡ item_child i (links_of r.rows i - 1))
unfolding nav_up
up_into_hidden_row i j r above skipped in_page open_ many =
    let found =
      subst (FindsPrev r.rows (i + 1)) above
        (nav_prev_below-FindsPrev (i + 1) r.rows (omega arith)) in
    (
      found.2 i skipped (omega arith),
      ap (focus_up r.rows (i + 1 - 1)) above
          ∙ if_true _ _ open_
          ∙ ap (λ n. last_child r.rows n (item j)) (omega arith)
          ∙ last_child_lem r.rows i (item j)
          ∙ if_true _ _ (lt→ltb 0 (links_of r.rows i) many),
    )

-- The arrow up at the row below a row that is shown leads into that row: to its last child link if its
-- children are displayed and it has any, and to its own link otherwise.
pub up_to_neighbour :
    (j : ℕ) (r : Results)
    → shown_at r.rows j ≡ true
    → (nav_up (j + 1) r).focus ≡ (
        if children_shown r.rows j && ltb 0 (links_of r.rows j)
        then item_child j (links_of r.rows j - 1)
        else item j)
unfolding nav_up
up_to_neighbour j r s =
    let found = nav_prev_below-FindsPrev (j + 1) r.rows (omega (arith, shown_at-lt r.rows j s)) in
    let same : j + 1 - 1 ≡ j = omega arith in
    ap (focus_up r.rows (j + 1 - 1)) (prev_neighbour r.rows j _ s found)
    ∙ ap (λ n. focus_up r.rows n (some j)) same
    ∙ ground (arith, last_child_lem r.rows j (item j))
