-- ===== src/Dynsections/Folders.antt =====
-- docs/dynsections.js, `toggleFolder`: the rows that it shows and hides.
use tiny_swarm.Prelude.{
  ℕ, zero, suc, ◌+◌, ◌%◌, ◌≡◌, refl, ap, ◌∙◌, Bool, true, false, ◌&&◌, ◌||◌, not, List, [], ◌∷◌,
  ◌++◌, some, ltb, leb, ◌==◌, if◌then◌else◌, get_elem?, map, arith,
}
use tiny_swarm.Text.{Str, codes, ◌==s◌}
use tiny_swarm.Dynsections.Directory.{
  TableRow, Directory, set_shown, row_position, is_child_id, is_below, update_rows,
  first_child_shown, toggle_at, close_folder, open_folder, toggle_folder, update_stripes,
  stripe_from,
}
use tiny_swarm.Dynsections.Stripes.{plain, shown_before, update_stripes_lem}

plain-update_rows :
    (i : ℕ) (test : Str → Bool) (b : Bool) (rows : List TableRow)
    → map plain (update_rows i test (set_shown b) rows)
      ≡ update_rows i test (set_shown b) (map plain rows)
unfolding update_rows
plain-update_rows i test b [] = refl
plain-update_rows zero test b (row ∷ rows) = ground (arith, plain-update_rows zero test b rows)
plain-update_rows (suc i) test b (row ∷ rows) =
    ap (λ rs. plain row ∷ rs) (plain-update_rows i test b rows)

pub row_position-plain :
    (i : ℕ) (id : Str) (rows : List TableRow)
    → row_position i id (map plain rows) ≡ row_position i id rows
unfolding row_position
row_position-plain i id [] = refl
row_position-plain i id (row ∷ rows) =
    ap (λ rest. if row.id ==s (codes "row_" ++ id) then some i else rest)
      (row_position-plain (i + 1) id rows)

first_child_shown-plain :
    (i : ℕ) (id : Str) (rows : List TableRow)
    → first_child_shown i id (map plain rows) ≡ first_child_shown i id rows
unfolding first_child_shown
first_child_shown-plain i id [] = refl
first_child_shown-plain zero id (row ∷ rows) =
    ap (λ rest. if is_child_id id row.id then row.shown else rest)
      (first_child_shown-plain zero id rows)
first_child_shown-plain (suc i) id (row ∷ rows) = first_child_shown-plain i id rows

-- The rows that `toggleFolder` leaves, without their stripes.
abbrev pub toggled_rows : Str → ℕ → List TableRow → List TableRow
toggled_rows id i rows =
    if first_child_shown (i + 1) id rows
    then update_rows (i + 1) (is_below id) (set_shown false) rows
    else update_rows (i + 1) (is_child_id id) (set_shown true) rows

pub toggled_rows-plain :
    (id : Str) (i : ℕ) (rows : List TableRow)
    → map plain (toggled_rows id i rows) ≡ toggled_rows id i (map plain rows)
toggled_rows-plain id i rows = ground (
  arith,
  first_child_shown-plain (i + 1) id rows,
  plain-update_rows (i + 1) (is_below id) false rows,
  plain-update_rows (i + 1) (is_child_id id) true rows,
)

toggle_at-rows :
    (id : Str) (t : Directory) (i : ℕ) → (toggle_at id (some i) t).rows ≡ toggled_rows id i t.rows
unfolding close_folder open_folder
toggle_at-rows id t i = ground arith

pub toggle_folder-rows :
    (id : Str) (t : Directory) (i : ℕ)
    → row_position 0 id t.rows ≡ some i
    → (toggle_folder id t).rows ≡ stripe_from 0 (toggled_rows id i t.rows)
unfolding toggle_folder update_stripes
toggle_folder-rows id t i h =
    ap (λ o. stripe_from 0 (toggle_at id o t).rows) h ∙ ap (stripe_from 0) (toggle_at-rows id t i)

get_elem?-update_rows :
    (i : ℕ) (test : Str → Bool) (b : Bool) (rows : List TableRow) (k : ℕ) (row : TableRow)
    → get_elem? rows k ≡ some row
    → get_elem? (update_rows i test (set_shown b) rows) k
      ≡ some (if leb i k && test row.id then set_shown b row else row)
unfolding update_rows
get_elem?-update_rows i test b [] k row h = cc
get_elem?-update_rows zero test b (r ∷ rows) zero row h = ground arith
get_elem?-update_rows zero test b (r ∷ rows) (suc k) row h =
    ground (arith, get_elem?-update_rows zero test b rows k row h)
get_elem?-update_rows (suc i) test b (r ∷ rows) zero row h = ground arith
get_elem?-update_rows (suc i) test b (r ∷ rows) (suc k) row h =
    ground (arith, get_elem?-update_rows i test b rows k row h)

-- The row at position `k` behind a change by `toggleFolder`.
abbrev touched_row : Str → ℕ → ℕ → List TableRow → TableRow → TableRow
touched_row id i k rows row =
    if first_child_shown (i + 1) id rows
    then (if leb (i + 1) k && is_below id row.id then set_shown false row else row)
    else (if leb (i + 1) k && is_child_id id row.id then set_shown true row else row)

get_elem?-toggled_rows :
    (id : Str) (i k : ℕ) (rows : List TableRow) (row : TableRow)
    → get_elem? rows k ≡ some row
    → get_elem? (toggled_rows id i rows) k ≡ some (touched_row id i k rows row)
get_elem?-toggled_rows id i k rows row h = ground (
  arith,
  get_elem?-update_rows (i + 1) (is_below id) false rows k row h,
  get_elem?-update_rows (i + 1) (is_child_id id) true rows k row h,
)

module _ (id : Str) (i k : ℕ) (rows : List TableRow) (row : TableRow) where
  touched_row-id : (touched_row id i k rows row).id ≡ row.id
  touched_row-id = ground arith

  touched_row-shown : (touched_row id i k rows row).shown ≡ (
      if first_child_shown (i + 1) id rows
      then row.shown && not (ltb i k && is_below id row.id)
      else row.shown || (ltb i k && is_child_id id row.id))
  touched_row-shown = ground arith

-- What `toggleFolder` does to the row at position `k`: if the first child of the folder is shown, it
-- hides the rows behind the folder whose id begins with that of the folder, and else it shows the
-- children of the folder; all other rows stay as they are.
pub toggle_folder_lem :
    (id : Str) (t : Directory) (i k : ℕ) (row : TableRow)
    → row_position 0 id t.rows ≡ some i
    → get_elem? t.rows k ≡ some row
    → (row' : TableRow) × (get_elem? (toggle_folder id t).rows k ≡ some row')
      × (row'.id ≡ row.id)
      × (row'.shown ≡ (
          if first_child_shown (i + 1) id t.rows
          then row.shown && not (ltb i k && is_below id row.id)
          else row.shown || (ltb i k && is_child_id id row.id)))
unfolding update_stripes
toggle_folder_lem id t i k row h at =
    let rows = toggled_rows id i t.rows in
    let touched = touched_row id i k t.rows row in
    (
      record touched { even = touched.shown && (shown_before k rows % 2 == 0) },
      ap (λ rs. get_elem? rs k) (toggle_folder-rows id t i h)
          ∙ update_stripes_lem (record t { rows = rows }) k touched
              (get_elem?-toggled_rows id i k t.rows row at),
      touched_row-id id i k t.rows row,
      touched_row-shown id i k t.rows row,
    )
