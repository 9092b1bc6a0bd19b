-- ===== src/Results/Filter.antt =====
-- docs/search/search.js, `SearchResults.Search`: which rows of the results page are shown.
use tiny_swarm.Prelude.{
  ℕ, ◌+◌, Bool, true, ◌&&◌, List, [], ◌∷◌, Option, none, some, ◌==◌, leb, if◌then◌else◌, length,
  take, drop,
}
use tiny_swarm.Text.{Str, codes, ◌==s◌, to_lower, strip_leading, strip_trailing}
use tiny_swarm.Text.Escape.{unescape}
use tiny_swarm.SearchId.{convert_to_id}
use tiny_swarm.Page.{Display, hidden, block}
use tiny_swarm.Results.Tree.{Styles, set_display}

-- A div of the page, as `getElementsByTagName("div")` lists it.
pub record Div : Type 0 where
  pub key : ℕ
  pub id : Str
  pub class_name : Str

pub record ResultsPage : Type 0 where
  pub divs : List Div
  pub styles : Styles
  pub searching : Display
  pub no_matches : Display
  -- `window.location.search`, with its `?`
  pub location_search : Str
  pub last_match_count : ℕ

-- `\d*_` at the start of a text, and what stands behind it.
unfoldable pub after_number : Str → Option Str
after_number [] = none
after_number (c ∷ s) =
    if leb b'0' c && leb c b'9' then after_number s else if c == b'_' then some s else none

abbrev or_text : Option Str → Str → Str
or_text none s = s
or_text (some t) s = t

-- `replace(/^sr\d*_/, '')`
unfoldable pub strip_sr : Str → Str
unfolding after_number
strip_sr (c ∷ d ∷ s) =
    if c == b's' && d == b'r' then or_text (after_number s) (c ∷ d ∷ s) else c ∷ d ∷ s
strip_sr s = s

-- The text that the rows are compared to: the argument, or the query of the URL if it is empty.
unfoldable pub query : (ℕ → ℕ) → Str → Str → Str
query wide location search =
    let text = if search ==s [] then unescape (drop 1 location) else search in
    convert_to_id (to_lower wide (strip_trailing (strip_leading text)))

unfoldable pub is_result : Div → Bool
is_result row = row.class_name ==s codes "SRResult"

-- `search.length<=rowMatchName.length && rowMatchName.substr(0, search.length)==search`
unfoldable pub is_match : (ℕ → ℕ) → Str → Div → Bool
is_match wide search row =
    let name = strip_sr (to_lower wide row.id) in
    leb (length search) (length name) && take (length search) name ==s search

-- What one round of the loop does to the styles.
unfoldable pub show_row : (ℕ → ℕ) → Str → Div → Styles → Styles
unfolding set_display
show_row wide search row styles =
    if is_result row
    then set_display row.key (if is_match wide search row then block else hidden) styles
    else styles

unfoldable pub count_row : (ℕ → ℕ) → Str → Div → ℕ → ℕ
count_row wide search row matches =
    if is_result row && is_match wide search row then matches + 1 else matches

-- `while (i < resultRows.length)`
unfoldable pub filter_rows : (ℕ → ℕ) → Str → List Div → Styles → ℕ → Styles × ℕ
filter_rows wide search [] styles matches = (styles, matches)
filter_rows wide search (row ∷ rows) styles matches =
    filter_rows wide search rows (show_row wide search row styles)
      (count_row wide search row matches)

-- `Search`; it always returns true.
unfoldable pub search_results : (ℕ → ℕ) → Str → ResultsPage → ResultsPage × Bool
search_results wide search page =
    let (styles, matches) =
      filter_rows wide (query wide page.location_search search) page.divs page.styles 0 in
    (
      record page {
        styles = styles;
        searching = hidden;
        no_matches = if matches == 0 then block else hidden;
        last_match_count = matches;
      },
      true,
    )
