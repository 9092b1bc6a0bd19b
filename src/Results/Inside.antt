-- ===== src/Results/Inside.antt =====
-- docs/search/search.js, `SearchResults.Nav` and `NavChild`: opening and closing a row, and moving
-- inside an open one.
use tiny_swarm.Prelude.{
  ℕ, zero, suc, ◌+◌, ◌≡◌, refl, false, List, [], ◌∷◌, Option, none, some, if◌then◌else◌, get_elem?,
  set, arith,
}
use tiny_swarm.Page.{Display, block, hidden}
use tiny_swarm.Results.Keys.{
  Row, Children, Results, Key, keydown, item, item_child, row_children, set_children, Target,
  has_child_link, nav_next, nav, nav_key, nav_child, nav_child_key,
}

abbrev pub key_down : ℕ → Key
key_down code = record { type = keydown; key_code = code }

row_children-set_children :
    (rows : List Row) (i : ℕ) (row : Row) (kids : Children) (d : Display)
    → get_elem? rows i ≡ some row
    → row.children ≡ some kids
    → row_children (get_elem? (set rows i (set_children d row)) i)
      ≡ some (record kids { display = d })
row_children-set_children [] i row kids d e k = cc
row_children-set_children (r ∷ rows) zero row kids d e k = rw k
row_children-set_children (r ∷ rows) (suc i) row kids d e k =
    row_children-set_children rows i row kids d e k

-- The arrow right displays the children of the row that has the focus, and the arrow left hides them;
-- the number of child links stays, and the page does not follow the key itself.
pub right_and_left :
    (i : ℕ) (r : Results) (row : Row) (kids : Children)
    → get_elem? r.rows i ≡ some row
    → row.children ≡ some kids
    → let (right, go_right) = nav (key_down 39) i r in
      let (left, go_left) = nav (key_down 37) i r in
      (row_children (get_elem? right.rows i) ≡ some (record kids { display = block }))
      × (row_children (get_elem? left.rows i) ≡ some (record kids { display = hidden }))
      × (go_right ≡ false)
      × (go_left ≡ false)
unfolding nav nav_key
right_and_left i r row kids e k = (
  rw e (row_children-set_children r.rows i row kids block e k),
  rw e (row_children-set_children r.rows i row kids hidden e k),
  refl,
  refl,
)

abbrev pub found_or : Option ℕ → Target → Target
found_or none target = target
found_or (some j) target = item j

-- The arrow down at a child link leads to the next child link of the row; at the last child link it
-- leads to the next row that is shown, and leaves the focus where it is if there is none. The arrow up
-- at the child link behind this one leads to this one.
pub child_down :
    (i c : ℕ) (r : Results)
    → let down = (nav_child (key_down 40) i c r).0 in
      (down.focus ≡ (
        if has_child_link r.rows i (c + 1)
        then item_child i (c + 1)
        else found_or (nav_next (i + 1) r.rows) r.focus))
      × ((nav_child (key_down 38) i (c + 1) down).0.focus ≡ item_child i c)
unfolding nav_child nav_child_key
child_down i c r = (ground arith, ground arith)
