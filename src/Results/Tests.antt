-- ===== src/Results/Tests.antt =====
-- Runs of the results page, and its theorems at concrete pages.
use tiny_swarm.Prelude.{ℕ, ◌≡◌, refl, true, false, [], ◌∷◌, ◌++◌, none, some, ◌==◌, arith}
use tiny_swarm.Text.{Str, codes, ◌==s◌, strip_leading, strip_trailing, lower_unit}
use tiny_swarm.Text.Escape.{escape, unescape}
use tiny_swarm.Text.Escape.RoundTrip.{unescape-escape}
use tiny_swarm.SearchId.{convert_to_id}
use tiny_swarm.Page.{unset, hidden, block, is_block}
use tiny_swarm.Results.Tree.{find_child_element}
use tiny_swarm.Results.Walk.{first_children_of, find_child_element_lem}
use tiny_swarm.Results.Filter.{
  Div, ResultsPage, query, is_result, strip_sr, filter_rows, show_row, count_row, is_match,
  search_results,
}
use tiny_swarm.Results.Shown.{
  displayed_at, find_div, count_shown, search_results_lem, query_handover,
}
use tiny_swarm.Results.Keys.{
  Row, Target, item, item_child, Results, nav_next, nav_prev_below, nav_up, nav_down,
}
use tiny_swarm.Results.Moves.{FindsNext, shown_at, nav_next-FindsNext}
use tiny_swarm.Results.Arrows.{down_up, up_into_hidden_row}
use tiny_swarm.Results.Create.{Link, Entry, create_row}
use tiny_swarm.Results.Created.{row_nodes}

abbrev to_manager : Link
to_manager = record { url = codes "../m.html#a"; in_parent = true; scope = codes "Manager" }

abbrev to_worker : Link
to_worker = record { url = codes "../w.html#b"; in_parent = true; scope = codes "WorkerNode" }

abbrev connect : Entry
connect = record {
  id = codes "connect_0";
  name = codes "connect";
  links = to_manager ∷ to_worker ∷ [];
}

abbrev create : Entry
create = record { id = codes "createpod_1"; name = codes "createPod"; links = to_manager ∷ [] }

find_child_element_lem_example :
    find_child_element (row_nodes (create_row 0 connect))
    ≡ first_children_of (row_nodes (create_row 0 connect))
find_child_element_lem_example = find_child_element_lem (row_nodes (create_row 0 connect))

abbrev row_of : ℕ → Str → Div
row_of key id = record { key = key; id = id; class_name = codes "SRResult" }

abbrev two_rows : ResultsPage
two_rows = record {
  divs =
      row_of 1 (codes "SR_connect_0")
      ∷ record { key = 2; id = []; class_name = codes "SREntry" }
      ∷ row_of 3 (codes "SR_createpod_1")
      ∷ [];
  styles = λ k. unset;
  searching = unset;
  no_matches = unset;
  location_search = codes "?Create%50";
  last_match_count = 0;
}

-- The page in the frame is called without a text, and shows the row that the URL asks for.
search_results_runs : (search_results (λ c. c) [] two_rows).0.styles 3 ≡ block
unfolding search_results query unescape strip_leading strip_trailing lower_unit convert_to_id
    filter_rows show_row count_row is_match is_result strip_sr ◌==s◌
search_results_runs = refl

search_results_lem_example :
    let text = query (λ c. c) (codes "?Create%50") (codes "con") in
    let (page', answer) = search_results (λ c. c) (codes "con") two_rows in
    (page'.styles 1 ≡ displayed_at (λ c. c) text (find_div 1 two_rows.divs) unset)
    × (page'.last_match_count ≡ count_shown (λ c. c) text two_rows.divs)
    × (is_block page'.no_matches ≡ (page'.last_match_count == 0))
    × (page'.searching ≡ hidden)
    × (answer ≡ true)
search_results_lem_example = search_results_lem (λ c. c) (codes "con") two_rows 1 (omega arith)

query_handover_example :
    query (λ c. c) (codes "?" ++ escape (codes "a b%")) [] ≡ query (λ c. c) [] (codes "a b%")
query_handover_example = query_handover (λ c. c) b'a' (codes " b%") (omega arith)

unescape-escape_example :
    unescape (escape (codes "a b%" ++ 0x4E2D ∷ [])) ≡ codes "a b%" ++ 0x4E2D ∷ []
unescape-escape_example = unescape-escape (codes "a b%" ++ 0x4E2D ∷ []) (omega arith)

abbrev open_row : Row
open_row = record { display = block; children = some (record { display = block; links = 2 }) }

abbrev plain_row : Row
plain_row = record { display = block; children = none }

abbrev hidden_row : Row
hidden_row = record { display = hidden; children = some (record { display = hidden; links = 3 }) }

-- An open row, a hidden row with child links, and a row with one result.
abbrev listed : Results
listed = record {
  rows = plain_row ∷ open_row ∷ hidden_row ∷ plain_row ∷ [];
  last_key = 0;
  repeat_on = false;
  focus = Target.elsewhere;
  closed = 0;
}

nav_next-FindsNext_example : FindsNext listed.rows 2 (nav_next 2 listed.rows)
nav_next-FindsNext_example = nav_next-FindsNext 2 listed.rows

down_up_example :
    ((nav_down 0 listed).focus ≡ item 1) × ((nav_up 1 (nav_down 0 listed)).focus ≡ item 0)
unfolding nav_next
down_up_example = down_up 0 1 listed refl refl refl

up_into_hidden_row_example :
    (shown_at listed.rows 2 ≡ false) × ((nav_up 3 listed).focus ≡ item_child 2 2)
unfolding nav_prev_below
up_into_hidden_row_example =
    up_into_hidden_row 2 1 listed refl (omega arith) (omega arith) refl (omega arith)
