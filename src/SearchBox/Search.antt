-- ===== src/SearchBox/Search.antt =====
-- docs/search/search.js, `SearchBox`: `Search`.
use tiny_swarm.Prelude.{
  ℕ, zero, suc, ◌+◌, ◌*◌, ◌-◌, Bool, false, ◌&&◌, List, [], ◌∷◌, ◌++◌, Option, none, some, ltb, leb,
  if◌then◌else◌, get_elem?, take,
}
use tiny_swarm.Prelude.Int.{ℤ, pos, ◌+ℤ◌, ◌-ℤ◌, ltb_ℤ}
use tiny_swarm.Text.{Str, codes, is_prefix, strip_leading, to_lower}
use tiny_swarm.Text.Digits.{to_string}
use tiny_swarm.Text.Escape.{escape}
use tiny_swarm.Page.{is_block, block, inline_block, Popup, get_x_pos, get_y_pos}
use tiny_swarm.SearchBox.State.{Config, SearchBox, Outcome, done, thrown}

-- `Number(s) > 1` at a text without spaces, sign, point and exponent: any other text than decimal
-- digits is not a number. `Search` asks it only of a text that begins with a surrogate.
unfoldable pub exceeds_one_from : ℕ → Str → Bool
exceeds_one_from n [] = ltb 1 n
exceeds_one_from n (c ∷ s) = leb b'0' c && leb c b'9' && exceeds_one_from (n * 10 + (c - b'0')) s

-- `search > 1`
unfoldable pub exceeds_one : Str → Bool
unfolding exceeds_one_from
exceeds_one s = exceeds_one_from 0 s

-- `0xD800 <= code && code <= 0xDBFF`, where `code` is not a number at the empty text.
abbrev pub is_high_surrogate : Option ℕ → Bool
is_high_surrogate none = false
is_high_surrogate (some c) = leb 0xD800 c && leb c 0xDBFF

-- `searchValue.substr(0, 1).toLowerCase()`, and the test for a surrogate pair.
unfoldable pub index_char : Config → Str → Str
unfolding exceeds_one
index_char cfg value =
    if is_high_surrogate (get_elem? (to_lower cfg.wide_lower value) 0) && exceeds_one value
    then take 2 value
    else to_lower cfg.wide_lower (take 1 value)

-- `text.indexOf(pattern)` from the position `i` on
unfoldable pub index_of_from : ℕ → Str → Str → Option ℕ
unfolding is_prefix
index_of_from i pattern [] = if is_prefix pattern [] then some i else none
index_of_from i pattern (c ∷ text) =
    let rest = index_of_from (i + 1) pattern text in
    if is_prefix pattern (c ∷ text) then some i else rest

unfoldable pub index_of : Str → Str → Option ℕ
unfolding index_of_from
index_of text pattern = index_of_from 0 pattern text

-- `indexSectionNames[i]` as it reads in a text.
unfoldable pub section_name : List Str → ℕ → Str
section_name [] i = codes "undefined"
section_name (name ∷ names) zero = name
section_name (name ∷ names) (suc i) = section_name names i

-- The results page of a search, and the same with the query.
unfoldable pub results_page : Config → ℕ → Option ℕ → Str
unfolding section_name to_string
results_page cfg section none = cfg.results_path ++ (codes "/nomatches" ++ cfg.extension)
results_page cfg section (some idx) =
    cfg.results_path
    ++ (codes "/"
        ++ (section_name cfg.section_names section
            ++ (codes "_" ++ (to_string 16 idx ++ cfg.extension))))

unfoldable pub results_page_with_search : Config → ℕ → Option ℕ → Str → Str
unfolding results_page escape
results_page_with_search cfg section none value = results_page cfg section none
results_page_with_search cfg section (some idx) value =
    results_page cfg section (some idx) ++ (codes "?" ++ escape value)

-- `if (left<10) left=10;`
unfoldable pub clamp_left : ℤ → ℤ
clamp_left left = if ltb_ℤ left (pos 10) then pos 10 else left

-- `width = 400; if (width+left+8>maxWidth) width=maxWidth-left-8;`
unfoldable pub clamp_width : ℤ → ℤ → ℤ
clamp_width max_width left =
    if ltb_ℤ max_width (pos 400 +ℤ left +ℤ pos 8) then max_width -ℤ left -ℤ pos 8 else pos 400

-- The results popup as `Search` opens it.
unfoldable pub placed_popup : Config → Popup
unfolding clamp_left clamp_width get_x_pos get_y_pos
placed_popup cfg =
    let left = clamp_left (get_x_pos cfg.search_box +ℤ pos 150 -ℤ pos cfg.popup_offset_width) in
    record {
      display = block;
      left = left;
      top = get_y_pos cfg.search_box +ℤ pos 20;
      width = clamp_width (pos cfg.body_client_width) left;
    }

-- `if (domPopupSearchResultsWindow.style.display!='block')`
unfoldable pub open_results : Config → SearchBox → SearchBox
open_results cfg s =
    if is_block s.results_window.display
    then s
    else record s { close_display = inline_block; results_window = placed_popup cfg }

-- `Search` behind the look-up of the index character; no content at the index is a `TypeError`.
unfoldable pub show_results : Config → Str → Option Str → SearchBox → Outcome
show_results cfg value none s = thrown s
show_results cfg value (some content) s =
    let idx = index_of content (index_char cfg value) in
    done
      (record (open_results cfg
        (record s { location = results_page_with_search cfg s.search_index idx value })) {
          last_search_value = value;
          last_results_page = results_page cfg s.search_index idx;
        })

unfoldable pub search_ : Config → SearchBox → Outcome
search_ cfg s =
    show_results cfg (strip_leading s.field_value)
      (get_elem? cfg.sections_with_content s.search_index) (record s { key_timeout = 0 })
