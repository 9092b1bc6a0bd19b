-- ===== src/SearchBox/Tests.antt =====
-- Runs of the search panel, and its theorems at concrete panels.
use tiny_swarm.Prelude.{
  arith, ◌≡◌, refl, true, false, List, [], ◌∷◌, some, ◌==◌, get_elem?, map, ltb, if◌then◌else◌,
}
use tiny_swarm.Prelude.Int.{pos}
use tiny_swarm.Text.{codes, ◌==s◌, strip_spaces, strip_leading, is_prefix, lower_unit}
use tiny_swarm.Text.Digits.{to_string}
use tiny_swarm.Page.{Element, Timer, search, is_block, block, hidden}
use tiny_swarm.SearchBox.State.{
  Child, select_item, other, search_field, Config, SearchBox, done, thrown, new_search_box,
  kill_key_timer,
}
use tiny_swarm.SearchBox.Handlers.{
  focus_field, select_item_set, select_item_count, activate, on_search_field_focus,
}
use tiny_swarm.SearchBox.Search.{
  index_char, index_of, results_page, results_page_with_search, open_results, show_results, search_,
}
use tiny_swarm.SearchBox.Events.{
  KeyEvent, value_changed, on_search_field_change, on_search_select_key, Event, focus_in, edit,
  fire, step, run,
}
use tiny_swarm.SearchBox.Panel.{IsCoherent, run-IsCoherent}
use tiny_swarm.SearchBox.Query.{position, search_lem}
use tiny_swarm.SearchBox.Menu.{
  marks, unmarked, count_marked, select_item_set-marks, down, down_past_end,
}
use tiny_swarm.SearchBox.Timers.{IsTimed, pending, starts_timer, new_search, change-IsTimed}

abbrev box_at_right : Element
box_at_right = record {
  offsets =
      record { is_body = false; offset_left = pos 600; offset_top = pos 4 }
      ∷ record { is_body = true; offset_left = pos 1; offset_top = pos 1 }
      ∷ [];
  offset_width = 150;
  offset_height = 20;
}

-- The first two sections of searchdata.js, in a page that is 900 pixels wide.
abbrev docs : Config
docs = record {
  results_path = codes "search";
  search_label = codes "Search";
  extension = codes ".html";
  sections_with_content = codes "abcdefghilmnprstuw~" ∷ codes "acehilmnprstw" ∷ [];
  section_names = codes "all" ∷ codes "classes" ∷ [];
  wide_lower = λ c. c;
  search_select = box_at_right;
  search_box = box_at_right;
  popup_offset_width = 300;
  body_client_width = 900;
}

abbrev menu : List Child
menu = other ∷ select_item false ∷ select_item false ∷ []

abbrev loaded : SearchBox
loaded = new_search_box docs menu

abbrev letter : KeyEvent
letter = record { key_code = 87; shift_key = false }

abbrev search_timer_1 : Timer
search_timer_1 = record { id = 1; callback = search; delay = 500 }

abbrev typing : List Event
typing = focus_in ∷ edit (codes "Worker node") letter ∷ fire search_timer_1 ∷ []

-- The user types, waits, and sees the page of `w`.
typed_location : (run docs typing loaded).location ≡ codes "search/all_11.html?Worker%20node"
unfolding run step focus_field on_search_field_focus activate new_search_box on_search_field_change
    value_changed ◌==s◌ strip_spaces strip_leading search_ show_results open_results index_of
    is_prefix index_char lower_unit results_page results_page_with_search to_string kill_key_timer
typed_location = refl

-- A panel with a search for "Worker node" behind it and none pending.
abbrev searched : SearchBox
searched = record {
  key_timeout = 0;
  hide_timeout = 0;
  last_search_value = codes "Worker node";
  last_results_page = codes "search/all_11.html";
  search_index = 0;
  search_active = true;
  field_value = codes "Worker node";
  focus = search_field;
  box_active = true;
  select_window = record { display = block; left = pos 0; top = pos 0; width = pos 0 };
  children = select_item true ∷ select_item false ∷ [];
  results_window = record { display = block; left = pos 10; top = pos 0; width = pos 400 };
  close_display = block;
  location = [];
  focus_messages = 0;
  timers = [];
  last_timer = 1;
}

-- The same panel before the timer fires.
abbrev waiting : SearchBox
waiting = record searched {
  key_timeout = 1;
  last_search_value = [];
  results_window = record { display = hidden; left = pos 10; top = pos 0; width = pos 400 };
  timers = search_timer_1 ∷ [];
}

run-IsCoherent_example : IsCoherent docs (run docs typing loaded)
run-IsCoherent_example = run-IsCoherent docs menu typing

search_lem_example :
    (s' : SearchBox) × (search_ docs waiting ≡ done s')
    × (s'.location
        ≡ results_page_with_search docs 0
            (position b'w' (codes "abcdefghilmnprstuw~"))
            (codes "Worker node"))
    × (s'.last_search_value ≡ codes "Worker node")
    × (s'.last_results_page ≡ results_page docs 0 (position b'w' (codes "abcdefghilmnprstuw~")))
    × (is_block s'.results_window.display ≡ true)
    × (s'.key_timeout ≡ 0)
unfolding lower_unit strip_leading
search_lem_example =
    search_lem docs waiting b'W' (codes "orker node") (codes "abcdefghilmnprstuw~") refl refl

select_item_set-marks_example :
    (select_item_count (select_item_set 1 searched) ≡ select_item_count searched)
    × (map unmarked (select_item_set 1 searched).children ≡ map unmarked searched.children)
    × (get_elem? (marks (select_item_set 1 searched).children) 0 ≡ some (0 == 1))
    × (count_marked (marks (select_item_set 1 searched).children)
        ≡ (if ltb 1 (select_item_count searched) then 1 else 0))
unfolding select_item_count
select_item_set-marks_example = select_item_set-marks 1 0 searched (omega arith)

down_past_end_example :
    (s' : SearchBox) × (on_search_select_key docs down (record searched { search_index = 1 })
      ≡ thrown s')
    × (s'.search_index ≡ select_item_count s')
unfolding select_item_count strip_spaces ◌==s◌
down_past_end_example =
    down_past_end docs (record searched { search_index = 1 }) refl refl refl refl

change-IsTimed_example :
    IsTimed (on_search_field_change docs letter waiting)
    × (pending (on_search_field_change docs letter waiting).timers
        ≡ new_search (starts_timer letter waiting) waiting)
change-IsTimed_example = change-IsTimed docs letter waiting (record { one_search = refl })
