-- ===== src/Menu/Layout.antt =====
-- docs/menu.js, `initMenu`: the search box of the page, and where `resetState` puts it.
use tiny_swarm.Prelude.{
  ℕ, Bool, true, false, List, [], ◌∷◌, ◌++◌, Option, none, some, ltb, ◌==◌, if◌then◌else◌,
}
use tiny_swarm.Text.{Str, codes}

-- The literals of the search box between the values that stand in them.
abbrev pub server_form : Str
server_form =
    codes
      "<div id=\"MSearchBox\" class=\"MSearchBoxInactive\"><div class=\"left\"><form id=\"FSearchBox\" action=\""

abbrev pub server_icon : Str
server_icon = codes "\" method=\"get\"><img id=\"MSearchSelect\" src=\""

abbrev pub server_field : Str
server_field =
    codes
      "search/mag.svg\" alt=\"\"/><input type=\"text\" id=\"MSearchField\" name=\"query\" value=\""

abbrev pub server_end : Str
server_end =
    codes
      "\" size=\"20\" accesskey=\"S\" onfocus=\"searchBox.OnSearchFieldFocus(true)\" onblur=\"searchBox.OnSearchFieldFocus(false)\"></form></div><div class=\"right\"></div></div>"

abbrev pub client_icon : Str
client_icon =
    codes
      "<div id=\"MSearchBox\" class=\"MSearchBoxInactive\"><span class=\"left\"><img id=\"MSearchSelect\" src=\""

abbrev pub client_field : Str
client_field =
    codes
      "search/mag_sel.svg\" onmouseover=\"return searchBox.OnSearchSelectShow()\" onmouseout=\"return searchBox.OnSearchSelectHide()\" alt=\"\"/><input type=\"text\" id=\"MSearchField\" value=\""

abbrev pub client_close : Str
client_close =
    codes
      "\" accesskey=\"S\" onfocus=\"searchBox.OnSearchFieldFocus(true)\" onblur=\"searchBox.OnSearchFieldFocus(false)\" onkeyup=\"searchBox.OnSearchFieldChange(event)\"/></span><span class=\"right\"><a id=\"MSearchClose\" href=\"javascript:searchBox.CloseResultsWindow()\"><img id=\"MSearchCloseImg\" border=\"0\" src=\""

abbrev pub client_end : Str
client_end = codes "search/close.svg\" alt=\"\"/></a>"

-- The markup for a search on the server.
unfoldable pub server_box : Str → Str → Str → Str
server_box rel_path search_page search =
    server_form
    ++ (rel_path
        ++ (search_page ++ (server_icon ++ (rel_path ++ (server_field ++ (search ++ server_end))))))

-- The markup for a search in the page. No `+` stands behind the line that ends in `</a>`: the two
-- literals below it are statements of their own, which do nothing.
unfoldable pub client_box : Str → Str → Str
client_box rel_path search =
    client_icon
    ++ (rel_path ++ (client_field ++ (search ++ (client_close ++ (rel_path ++ client_end)))))

-- `var searchBox`, which stays undefined without a search.
unfoldable pub search_box_of : Bool → Bool → Str → Str → Str → Option Str
unfolding server_box client_box
search_box_of search_enabled server_side rel_path search_page search =
    if search_enabled
    then (if server_side
        then some (server_box rel_path search_page search)
        else some (client_box rel_path search))
    else none

pub record Slot : Type 0 where
  pub content : Str
  pub shown : Bool

-- What `resetState` reads and writes: `prevWidth`, the check box of the menu, the menu, and the two
-- places of the search box, of which the second is in the page only if there is a search.
pub record Layout : Type 0 where
  pub prev_width : ℕ
  pub checked : Bool
  pub menu_shown : Bool
  pub place_1 : Slot
  pub place_2 : Option Slot

-- `if (searchBox)` at the end of the markup; an empty text is no search box either.
unfoldable pub new_place : Option Str → Option Slot
new_place none = none
new_place (some []) = none
new_place (some (c ∷ box)) = some (record { content = []; shown = true })

-- The page before the first `resetState`.
unfoldable pub new_layout : Option Str → Layout
unfolding new_place
new_layout box = record {
  prev_width = 0;
  checked = false;
  menu_shown = true;
  place_1 = record { content = []; shown = true };
  place_2 = new_place box;
}

-- `.html(searchBox)`, which changes nothing if there is no value.
unfoldable pub set_html : Option Str → Slot → Slot
set_html none slot = slot
set_html (some box) slot = record slot { content = box }

abbrev hide_place : Option Slot → Option Slot
hide_place none = none
hide_place (some slot) = some (record slot { shown = false })

abbrev show_place : Option Str → Option Slot → Option Slot
show_place box none = none
show_place box (some slot) = some (record (set_html box slot) { shown = true })

unfoldable pub reset_state : Option Str → ℕ → Layout → Layout
unfolding set_html
reset_state box new_width l =
    if new_width == l.prev_width
    then l
    else if ltb new_width 768
    then record {
      prev_width = new_width;
      checked = false;
      menu_shown = false;
      place_1 = set_html box l.place_1;
      place_2 = hide_place l.place_2;
    }
    else record {
      prev_width = new_width;
      checked = l.checked;
      menu_shown = true;
      place_1 = record l.place_1 { content = [] };
      place_2 = show_place box l.place_2;
    }

-- The page becomes ready at the first width, and is resized to the others.
unfoldable pub resize : Option Str → List ℕ → Layout → Layout
unfolding reset_state
resize box [] l = l
resize box (w ∷ widths) l = resize box widths (reset_state box w l)
