-- ===== src/Dynsections/Reopen.antt =====
-- docs/dynsections.js, `toggleFolder`: opening a folder and closing it again.
use tiny_swarm.Prelude.{
  ℕ, zero, suc, ◌+◌, ◌≤◌, ◌<◌, ◌≡◌, refl, sym, ap, ◌∙◌, Bool, true, false, ◌&&◌, ◌||◌, not, List,
  [], ◌∷◌, some, get_elem?, drop, arith, All, if_true, if_false,
}
use tiny_swarm.Text.{Str}
use tiny_swarm.Dynsections.Directory.{
  TableRow, Directory, set_shown, row_position, is_child_id, is_below, update_rows,
  first_child_shown, toggle_folder, update_stripes, stripe_from,
}
use tiny_swarm.Dynsections.Stripes.{plain-stripe_from, stripe_from-plain}
use tiny_swarm.Dynsections.Folders.{
  toggled_rows, row_position-plain, toggled_rows-plain, toggle_folder-rows,
}

row_position-update_rows :
    (n i : ℕ) (id : Str) (test : Str → Bool) (b : Bool) (rows : List TableRow)
    → row_position n id (update_rows i test (set_shown b) rows) ≡ row_position n id rows
unfolding row_position update_rows
row_position-update_rows n i id test b [] = refl
row_position-update_rows n zero id test b (row ∷ rows) =
    ground (arith, row_position-update_rows (n + 1) zero id test b rows)
row_position-update_rows n (suc i) id test b (row ∷ rows) =
    ground (arith, row_position-update_rows (n + 1) i id test b rows)

row_position-stripe_from :
    (id : Str) (rows : List TableRow)
    → row_position 0 id (stripe_from 0 rows) ≡ row_position 0 id rows
row_position-stripe_from id rows =
    sym (row_position-plain 0 id (stripe_from 0 rows))
    ∙ ap (row_position 0 id) (plain-stripe_from rows 0)
    ∙ row_position-plain 0 id rows

toggled_rows-stripe_from :
    (id : Str) (i : ℕ) (rows : List TableRow)
    → stripe_from 0 (toggled_rows id i (stripe_from 0 rows))
      ≡ stripe_from 0 (toggled_rows id i rows)
toggled_rows-stripe_from id i rows =
    sym (stripe_from-plain (toggled_rows id i (stripe_from 0 rows)) 0)
    ∙ ap (stripe_from 0) (
        toggled_rows-plain id i (stripe_from 0 rows)
        ∙ ap (toggled_rows id i) (plain-stripe_from rows 0)
        ∙ sym (toggled_rows-plain id i rows))
    ∙ stripe_from-plain (toggled_rows id i rows) 0

-- A row that is hidden if it is below the folder, and that is below it if it is its child.
unfoldable pub is_folded : Str → TableRow → Bool
is_folded id row =
    not (is_below id row.id && row.shown) && (not (is_child_id id row.id) || is_below id row.id)

first_child_shown-folded :
    (i : ℕ) (id : Str) (rows : List TableRow)
    → All (λ row. is_folded id row ≡ true) (drop i rows)
    → first_child_shown i id rows ≡ false
unfolding first_child_shown is_folded
first_child_shown-folded i id [] h = refl
first_child_shown-folded zero id (row ∷ rows) h =
    ground (arith, h.0, first_child_shown-folded zero id rows h.1)
first_child_shown-folded (suc i) id (row ∷ rows) h = first_child_shown-folded i id rows h

first_child_shown-open :
    (i : ℕ) (id : Str) (rows : List TableRow) (k : ℕ) (row : TableRow)
    → i ≤ k
    → get_elem? rows k ≡ some row
    → is_child_id id row.id ≡ true
    → first_child_shown i id (update_rows i (is_child_id id) (set_shown true) rows) ≡ true
unfolding first_child_shown update_rows
first_child_shown-open i id [] k row le h c = cc
first_child_shown-open zero id (r ∷ rows) zero row le h c = ground arith
first_child_shown-open zero id (r ∷ rows) (suc k) row le h c =
    ground (arith, first_child_shown-open zero id rows k row (omega arith) h c)
first_child_shown-open (suc i) id (r ∷ rows) zero row le h c = absurd (omega arith)
first_child_shown-open (suc i) id (r ∷ rows) (suc k) row le h c =
    first_child_shown-open i id rows k row (omega arith) h c

hide-show :
    (i : ℕ) (id : Str) (rows : List TableRow)
    → All (λ row. is_folded id row ≡ true) (drop i rows)
    → update_rows i
        (is_below id)
        (set_shown false)
        (update_rows i (is_child_id id) (set_shown true) rows)
      ≡ rows
unfolding update_rows is_folded
hide-show i id [] h = refl
hide-show zero id (row ∷ rows) h = ground (arith, h.0, hide-show zero id rows h.1)
hide-show (suc i) id (row ∷ rows) h = ap (λ rs. row ∷ rs) (hide-show i id rows h)

-- Opening a folder and closing it again restores the table's rows, up to a new striping, if the folder
-- has a child behind it, all rows below it are hidden, and all its children count as below it.
pub toggle_folder-twice :
    (id : Str) (t : Directory) (i k : ℕ) (child : TableRow)
    → row_position 0 id t.rows ≡ some i
    → i < k
    → get_elem? t.rows k ≡ some child
    → is_child_id id child.id ≡ true
    → All (λ row. is_folded id row ≡ true) (drop (i + 1) t.rows)
    → (toggle_folder id (toggle_folder id t)).rows ≡ (update_stripes t).rows
unfolding update_stripes
toggle_folder-twice id t i k child h le at c folded =
    let opened = update_rows (i + 1) (is_child_id id) (set_shown true) t.rows in
    let first : (toggle_folder id t).rows ≡ stripe_from 0 opened =
      toggle_folder-rows id t i h
      ∙ ap (stripe_from 0) (if_false _ _ (first_child_shown-folded (i + 1) id t.rows folded)) in
    let same_place : row_position 0 id (toggle_folder id t).rows ≡ some i =
      ap (row_position 0 id) first
      ∙ row_position-stripe_from id opened
      ∙ row_position-update_rows 0 (i + 1) id (is_child_id id) true t.rows
      ∙ h in
    toggle_folder-rows id (toggle_folder id t) i same_place
    ∙ ap (λ rs. stripe_from 0 (toggled_rows id i rs)) first
    ∙ toggled_rows-stripe_from id i opened
    ∙ ap (stripe_from 0) (
        if_true _ _ (first_child_shown-open (i + 1) id t.rows k child (omega arith) at c)
        ∙ hide-show (i + 1) id t.rows folded)
