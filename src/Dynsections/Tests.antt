-- ===== src/Dynsections/Tests.antt =====
-- Runs of the folding functions, and their theorems at concrete pages.
use tiny_swarm.Prelude.{
  arith, ℕ, ◌≡◌, refl, Bool, true, false, not, ◌||◌, [], ◌∷◌, ◌++◌, some, get_elem?, map,
}
use tiny_swarm.Text.{Str, codes, ◌==s◌, is_prefix, lower_unit}
use tiny_swarm.Dynsections.Directory.{
  TableRow, Span, Directory, level_of, level_row, row_position, is_child_id, is_below,
  first_child_shown, toggle_level, toggle_folder, update_stripes, update_rows, ends_number, is_sub,
  update_id, level_spans, all_level_spans, stripe_from, fold_spans, unfold_spans, is_selected,
  close_folder, open_folder,
}
use tiny_swarm.Dynsections.Levels.{toggle_level-parents}
use tiny_swarm.Dynsections.Reopen.{is_folded, toggle_folder-twice}

abbrev row : Str → Bool → TableRow
row id shown = record { id = codes "row_" ++ id; shown = shown; even = false }

-- The icon of a folder that is open, and its arrow.
abbrev icon : ℕ → Str → Span
icon k id = record {
  row = k;
  id = codes "img_" ++ id;
  is_open = false;
  is_closed = true;
  is_arrow = false;
  text = [];
}

abbrev arrow : ℕ → Str → Span
arrow k id = record {
  row = k;
  id = codes "arr_" ++ id;
  is_open = false;
  is_closed = false;
  is_arrow = true;
  text = 9658 ∷ [];
}

-- Two folders at the top, of which the first has a folder and a file, all closed.
abbrev closed_table : Directory
closed_table = record {
  rows =
      row (codes "0_") true
      ∷ row (codes "0_0_") false
      ∷ row (codes "0_0_0_") false
      ∷ row (codes "0_1_") false
      ∷ row (codes "1_") true
      ∷ [];
  spans =
      arrow 0 (codes "0_")
      ∷ icon 0 (codes "0_")
      ∷ arrow 1 (codes "0_0_")
      ∷ icon 1 (codes "0_0_")
      ∷ [];
}

opened_rows :
    map (λ r. r.shown) (toggle_folder (codes "0_") closed_table).rows
    ≡ true ∷ true ∷ false ∷ true ∷ true ∷ []
unfolding toggle_folder update_stripes stripe_from row_position first_child_shown close_folder
    open_folder update_rows is_child_id is_sub ends_number is_prefix lower_unit ◌==s◌
opened_rows = refl

opened_spans :
    map (λ s. s.is_open) (toggle_folder (codes "0_") closed_table).spans
    ≡ false ∷ true ∷ false ∷ false ∷ []
unfolding toggle_folder update_stripes stripe_from row_position first_child_shown close_folder
    open_folder update_rows is_child_id is_sub ends_number is_prefix lower_unit ◌==s◌ fold_spans
    unfold_spans is_selected
opened_spans = refl

level_two_rows :
    map (λ r. r.even) (toggle_level 2 closed_table).rows ≡ true ∷ false ∷ false ∷ true ∷ false ∷ []
unfolding toggle_level update_stripes stripe_from level_row level_of
level_two_rows = refl

level_one_spans :
    map (λ s. s.text) (toggle_level 1 closed_table).spans ≡ (9658 ∷ []) ∷ [] ∷ (9658 ∷ []) ∷ [] ∷ []
unfolding toggle_level update_stripes all_level_spans level_spans update_id level_of ◌==s◌
level_one_spans = refl

toggle_level-parents_example :
    (parent' child' : TableRow) × (get_elem? (toggle_level 1 closed_table).rows 0 ≡ some parent')
    × (get_elem? (toggle_level 1 closed_table).rows 1 ≡ some child')
    × ((not child'.shown || parent'.shown) ≡ true)
unfolding is_child_id is_sub ends_number is_prefix lower_unit ◌==s◌
toggle_level-parents_example =
    toggle_level-parents 1 closed_table (codes "0_") 0 1 (row (codes "0_") true)
      (row (codes "0_0_") false) refl refl refl refl

toggle_folder-twice_example :
    (toggle_folder (codes "0_") (toggle_folder (codes "0_") closed_table)).rows
    ≡ (update_stripes closed_table).rows
unfolding row_position ◌==s◌ is_child_id is_sub ends_number is_prefix lower_unit is_folded is_below
toggle_folder-twice_example =
    toggle_folder-twice (codes "0_") closed_table 0 1 (row (codes "0_0_") false) refl (omega arith)
      refl refl (refl, (refl, (refl, (refl, tt))))
