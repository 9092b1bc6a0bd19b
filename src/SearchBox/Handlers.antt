-- ===== src/SearchBox/Handlers.antt =====
-- docs/search/search.js, `SearchBox`: activation, the filter menu's window, the close button.
use tiny_swarm.Prelude.{
  ℕ, ◌+◌, Bool, true, false, ◌||◌, List, [], ◌∷◌, Option, none, some, ◌==◌, if◌then◌else◌,
}
use tiny_swarm.Prelude.Int.{pos, ◌+ℤ◌}
use tiny_swarm.Text.{◌==s◌}
use tiny_swarm.Page.{is_block, hidden, block, get_x_pos, get_y_pos, close_selection_window}
use tiny_swarm.SearchBox.State.{
  Child, select_item, other, Focus, search_field, nowhere, menu_child, Config, SearchBox,
  set_timeout, kill_hide_timer, close_selection_timeout,
}

unfoldable pub activate : Config → Bool → SearchBox → SearchBox
activate cfg is_active s =
    if is_active || is_block s.results_window.display
    then (if s.field_value ==s cfg.search_label
        then record s { box_active = true; field_value = []; search_active = true }
        else record s { box_active = true })
    else record s {
      box_active = false;
      field_value = cfg.search_label;
      search_active = false;
      last_search_value = [];
      last_results_page = [];
    }

-- The page calls it when the field gains the focus, and when the field loses it.
unfoldable pub on_search_field_focus : Config → Bool → SearchBox → SearchBox
unfolding activate
on_search_field_focus cfg is_active s = activate cfg is_active s

abbrev pub is_search_field : Focus → Bool
is_search_field search_field = true
is_search_field _ = false

-- The focus moves to `target`; a field that loses it calls its handler.
unfoldable pub move_focus : Config → Focus → SearchBox → SearchBox
unfolding on_search_field_focus
move_focus cfg target s =
    record (if is_search_field s.focus
      then on_search_field_focus cfg false (record s { focus = nowhere })
      else s) { focus = target }

-- `this.DOMSearchField().blur()`
unfoldable pub blur_field : Config → SearchBox → SearchBox
unfolding on_search_field_focus
blur_field cfg s =
    if is_search_field s.focus
    then on_search_field_focus cfg false (record s { focus = nowhere })
    else s

-- `this.DOMSearchField().focus()`
unfoldable pub focus_field : Config → SearchBox → SearchBox
unfolding on_search_field_focus
focus_field cfg s =
    if is_search_field s.focus
    then s
    else on_search_field_focus cfg true (record s { focus = search_field })

unfoldable pub on_search_select_show : Config → SearchBox → SearchBox
unfolding kill_hide_timer get_x_pos get_y_pos
on_search_select_show cfg s =
    let field = cfg.search_select in
    kill_hide_timer (record s {
      select_window = record s.select_window {
        display = block;
        left = get_x_pos field;
        top = get_y_pos field +ℤ pos field.offset_height;
      };
    })

unfoldable pub on_search_select_hide : SearchBox → SearchBox
unfolding set_timeout
on_search_select_hide s =
    let (s', id) = set_timeout close_selection_window close_selection_timeout s in
    record s' { hide_timeout = id }

unfoldable pub close_results_window : Config → SearchBox → SearchBox
unfolding activate
close_results_window cfg s = activate cfg false (record s {
  results_window = record s.results_window { display = hidden };
  close_display = hidden;
})

unfoldable pub close_selection_window_ : SearchBox → SearchBox
close_selection_window_ s = record s { select_window = record s.select_window { display = hidden } }

-- The number of entries of the filter menu.
unfoldable pub count_items : ℕ → List Child → ℕ
count_items count [] = count
count_items count (select_item mark ∷ rest) = count_items (count + 1) rest
count_items count (other ∷ rest) = count_items count rest

unfoldable pub select_item_count : SearchBox → ℕ
unfolding count_items
select_item_count s = count_items 0 s.children

-- The loop of `SelectItemSet`: the `j` counts the entries passed.
unfoldable pub mark_items : ℕ → ℕ → List Child → List Child
mark_items id j [] = []
mark_items id j (select_item mark ∷ rest) = select_item (j == id) ∷ mark_items id (j + 1) rest
mark_items id j (other ∷ rest) = other ∷ mark_items id j rest

unfoldable pub select_item_set : ℕ → SearchBox → SearchBox
unfolding mark_items
select_item_set id s = record s { children = mark_items id 0 s.children }

-- The index of the first entry among the child nodes.
unfoldable pub first_item : ℕ → List Child → Option ℕ
first_item i [] = none
first_item i (select_item mark ∷ rest) = some i
first_item i (other ∷ rest) = first_item (i + 1) rest

abbrev pub focus_child : Config → Option ℕ → SearchBox → SearchBox
focus_child cfg none s = s
focus_child cfg (some i) s = move_focus cfg (menu_child i) s
