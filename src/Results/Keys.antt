-- ===== src/Results/Keys.antt =====
-- docs/search/search.js, `SearchResults`: `ProcessKeys`, and the moves of the focus over the rows.
-- `createResults` gives row `e` the link `Item<e>`, and its child links, if it has any, the names
-- `Item<e>_c<c>`; here a row is what these functions reach from its link.
use tiny_swarm.Prelude.{
  ℕ, zero, suc, ◌+◌, ◌-◌, Bool, true, false, ◌&&◌, not, List, Option, none, some, ◌==◌, ltb,
  if◌then◌else◌, length, get_elem?, set,
}
use tiny_swarm.Page.{Display, hidden, block, is_block}

-- The `SRChildren` div of a row: its display, and how many links it holds.
pub record Children : Type 0 where
  pub display : Display
  pub links : ℕ

-- `focusItem.parentNode.parentNode` at the row's link, and what `FindChildElement` finds in it.
pub record Row : Type 0 where
  pub display : Display
  pub children : Option Children

-- What has the focus.
pub data Target : Type 0 where
  item : ℕ → Target
  item_child : ℕ → ℕ → Target
  search_field : Target
  elsewhere : Target

pub record Results : Type 0 where
  pub rows : List Row
  pub last_key : ℕ
  pub repeat_on : Bool
  pub focus : Target
  -- how often the page has closed the results window of the panel
  pub closed : ℕ

pub data KeyType : Type 0 where
  keydown keypress keyup : KeyType

pub record Key : Type 0 where
  pub type : KeyType
  pub key_code : ℕ

abbrev process : KeyType → ℕ → Results → Results × Bool
process keydown code r = (record r { repeat_on = false; last_key = code }, not (code == 0))
process keypress code r =
    if r.repeat_on
    then (r, not (r.last_key == 0))
    else (record r { repeat_on = not (r.last_key == 0) }, false)
process keyup code r = (record r { last_key = 0; repeat_on = false }, false)

unfoldable pub process_keys : Key → Results → Results × Bool
process_keys e r = process e.type e.key_code r

-- The loop of `NavNext` from `Item<index>` on: the first row that is shown. Past the last row there
-- is no link; the rows are more than enough rounds.
unfoldable pub nav_next_from : ℕ → ℕ → List Row → Option ℕ
nav_next_from zero index rows = none
nav_next_from (suc f) index rows = elim (get_elem? rows index) [
  | none ↦ none
  | some row ↦ elim (is_block row.display) [
    | true ↦ some index
    | false ↦ nav_next_from f (index + 1) rows
  ]
]

unfoldable pub nav_next : ℕ → List Row → Option ℕ
unfolding nav_next_from
nav_next index rows = nav_next_from (suc (length rows)) index rows

-- `NavPrev` from `Item<index - 1>` down to `Item-1`, which is no link.
unfoldable pub nav_prev_below : ℕ → List Row → Option ℕ
nav_prev_below zero rows = none
nav_prev_below (suc index) rows = elim (get_elem? rows index) [
  | none ↦ none
  | some row ↦ elim (is_block row.display) [ true ↦ some index | false ↦ nav_prev_below index rows ]
]

abbrev pub row_children : Option Row → Option Children
row_children none = none
row_children (some row) = row.children

-- The number of child links of row `i`.
abbrev pub links_of : List Row → ℕ → ℕ
links_of rows i = elim (row_children (get_elem? rows i)) [ none ↦ 0 | some kids ↦ kids.links ]

-- Whether `Item<i>_c<c>` is a link.
abbrev pub has_child_link : List Row → ℕ → ℕ → Bool
has_child_link rows i c = ltb c (links_of rows i)

abbrev pub children_shown : List Row → ℕ → Bool
children_shown rows i = elim (row_children (get_elem? rows i)) [
  | none ↦ false
  | some kids ↦ is_block kids.display
]

-- The loop over `Item<newIndex>_c<n>` in `Nav`: the last link found, or the target so far.
unfoldable pub last_child_from : ℕ → ℕ → List Row → ℕ → Target → Target
last_child_from zero n rows i target = target
last_child_from (suc f) n rows i target = elim (has_child_link rows i n) [
  | true ↦ last_child_from f (n + 1) rows i (item_child i n)
  | false ↦ target
]

unfoldable pub last_child : List Row → ℕ → Target → Target
unfolding last_child_from
last_child rows i target = last_child_from (suc (links_of rows i)) 0 rows i target

abbrev pub set_children : Display → Row → Row
set_children d row = record row {
  children = elim row.children [ none ↦ none | some kids ↦ some (record kids { display = d }) ];
}

-- `if (elem) elem.style.display = d;` at the row of `Item<i>`
unfoldable pub display_children : ℕ → Display → Results → Results
display_children i d r = elim (get_elem? r.rows i) [
  | none ↦ r
  | some row ↦ record r { rows = set r.rows i (set_children d row) }
]

-- `parent.searchBox.CloseResultsWindow(); … .focus();`
unfoldable pub leave_results : Results → Results
leave_results r = record r { closed = r.closed + 1; focus = search_field }

-- The arrow up. The children that are searched for the last link are those of `Item<newIndex>`,
-- whatever row the loop has found.
abbrev pub focus_up : List Row → ℕ → Option ℕ → Target
focus_up rows new_index none = search_field
focus_up rows new_index (some found) =
    if children_shown rows found then last_child rows new_index (item found) else item found

-- At `Item0`, `newIndex` is -1, of which there is neither a link nor a child link.
unfoldable pub nav_up : ℕ → Results → Results
unfolding nav_prev_below last_child
nav_up item_index r = record r {
  focus = focus_up r.rows (item_index - 1) (nav_prev_below item_index r.rows);
}

abbrev pub focus_down : Option ℕ → Results → Results
focus_down none r = r
focus_down (some found) r = record r { focus = item found }

unfoldable pub nav_down : ℕ → Results → Results
unfolding nav_next
nav_down item_index r =
    if children_shown r.rows item_index && has_child_link r.rows item_index 0
    then record r { focus = item_child item_index 0 }
    else focus_down (nav_next (item_index + 1) r.rows) r

-- The branches of `Nav` behind `ProcessKeys`, by the key that is kept.
unfoldable pub nav_key : ℕ → ℕ → Results → Results × Bool
unfolding nav_up nav_down display_children leave_results
nav_key last_key item_index r =
    if last_key == 38
    then (nav_up item_index r, false)
    else if last_key == 40
    then (nav_down item_index r, false)
    else if last_key == 39
    then (display_children item_index block r, false)
    else if last_key == 37
    then (display_children item_index hidden r, false)
    else if last_key == 27
    then (leave_results r, false)
    else (r, last_key == 13)

-- `Nav` at a link that is in the page.
unfoldable pub nav : Key → ℕ → Results → Results × Bool
unfolding process_keys
nav e item_index r =
    let (r', go) = process_keys e r in
    let moved = nav_key r'.last_key item_index r' in
    if e.key_code == 13 then (r, true) else if go then moved else (r', false)

-- The arrow down at a child link: the next child, or the next row that is shown.
unfoldable pub nav_child_down : ℕ → ℕ → Results → Results
unfolding nav_next
nav_child_down item_index child_index r =
    if has_child_link r.rows item_index (child_index + 1)
    then record r { focus = item_child item_index (child_index + 1) }
    else focus_down (nav_next (item_index + 1) r.rows) r

unfoldable pub nav_child_up : ℕ → ℕ → Results → Results
nav_child_up item_index child_index r = record r {
  focus = if ltb 0 child_index then item_child item_index (child_index - 1) else item item_index;
}

unfoldable pub nav_child_key : ℕ → ℕ → ℕ → Results → Results × Bool
unfolding nav_child_up nav_child_down leave_results
nav_child_key last_key item_index child_index r =
    if last_key == 38
    then (nav_child_up item_index child_index r, false)
    else if last_key == 40
    then (nav_child_down item_index child_index r, false)
    else if last_key == 27
    then (leave_results r, false)
    else (r, last_key == 13)

-- `NavChild` at a child link that is in the page.
unfoldable pub nav_child : Key → ℕ → ℕ → Results → Results × Bool
unfolding process_keys
nav_child e item_index child_index r =
    let (r', go) = process_keys e r in
    let moved = nav_child_key r'.last_key item_index child_index r' in
    if e.key_code == 13 then (r, true) else if go then moved else (r', false)
