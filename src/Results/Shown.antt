-- ===== src/Results/Shown.antt =====
-- docs/search/search.js, `SearchResults.Search`: the rows that it shows, and their number.
use tiny_swarm.Prelude.{
  ℕ, suc, ◌+◌, ◌<◌, ◌≡◌, refl, sym, ap, ◌∙◌, ◌≢◌, true, ◌&&◌, List, [], ◌∷◌, ◌++◌, Option, none,
  some, ◌==◌, Bool-cases, inl, inr, ==_iff, false, if_true, if_false, leb, if◌then◌else◌, arith,
  length, take, All, subst,
}
use tiny_swarm.SearchId.{convert_to_id}
use tiny_swarm.Text.Escape.{escape}
use tiny_swarm.Text.Escape.RoundTrip.{unescape-escape}
use tiny_swarm.Text.{strip_leading, strip_trailing, Str, codes, ◌==s◌, is_prefix, to_lower}
use tiny_swarm.Page.{Display, hidden, block, is_block}
use tiny_swarm.Results.Tree.{Styles}
use tiny_swarm.Results.Filter.{
  Div, ResultsPage, strip_sr, query, is_result, is_match, show_row, count_row, filter_rows,
  search_results,
}

-- `take` and a comparison decide what a prefix is.
pub take-is_prefix :
    (p s : Str) → (leb (length p) (length s) && take (length p) s ==s p) ≡ is_prefix p s
unfolding is_prefix ◌==s◌
take-is_prefix [] s = ground arith
take-is_prefix (c ∷ p) [] = ground arith
take-is_prefix (c ∷ p) (d ∷ s) = ground (arith, take-is_prefix p s)

-- No two divs are the same node.
abbrev pub AreDistinct : List Div → Type 0
AreDistinct [] = Unit
AreDistinct (row ∷ rows) = All (λ r. row.key ≢ r.key) rows × AreDistinct rows

-- The div that the node is, if it is one of them.
unfoldable pub find_div : ℕ → List Div → Option Div
find_div key [] = none
find_div key (row ∷ rows) =
    let rest = find_div key rows in if row.key == key then some row else rest

apart : (a b : ℕ) → (a == b) ≡ false → b ≢ a
apart a b h = ground arith

module _ (wide : ℕ → ℕ) (search : Str) where
  show_row-other :
      (row : Div) (key : ℕ) (styles : Styles)
      → key ≢ row.key
      → show_row wide search row styles key ≡ styles key
  unfolding show_row
  show_row-other row key styles h = ground arith

  filter_rows-other :
      (rows : List Div) (key : ℕ) (styles : Styles) (n : ℕ)
      → All (λ r. key ≢ r.key) rows
      → (filter_rows wide search rows styles n).0 key ≡ styles key
  unfolding filter_rows
  filter_rows-other [] key styles n h = refl
  filter_rows-other (row ∷ rows) key styles n h =
      filter_rows-other rows key _ _ h.1 ∙ show_row-other row key styles h.0

  -- How a row is displayed if it was displayed as `d`: a result by whether its name begins with the
  -- text, another div as before.
  abbrev pub displayed : Div → Display → Display
  displayed row d =
      if is_result row
      then (if is_prefix search (strip_sr (to_lower wide row.id)) then block else hidden)
      else d

  show_row_self :
      (row : Div) (styles : Styles)
      → show_row wide search row styles row.key ≡ displayed row (styles row.key)
  unfolding show_row is_match
  show_row_self row styles = ground (arith, take-is_prefix search (strip_sr (to_lower wide row.id)))

  head-displayed :
      (row : Div) (rows : List Div) (styles : Styles) (n : ℕ)
      → All (λ r. row.key ≢ r.key) rows
      → (filter_rows wide search (row ∷ rows) styles n).0 row.key ≡ displayed row (styles row.key)
  unfolding filter_rows
  head-displayed row rows styles n d =
      filter_rows-other rows row.key _ _ d ∙ show_row_self row styles

  -- What the display of a node becomes, by the div that it is.
  abbrev pub displayed_at : Option Div → Display → Display
  displayed_at none d = d
  displayed_at (some row) d = displayed row d

  filter_rows-displayed :
      (rows : List Div) (key : ℕ) (styles : Styles) (n : ℕ)
      → AreDistinct rows
      → (filter_rows wide search rows styles n).0 key
        ≡ displayed_at (find_div key rows) (styles key)
  unfolding filter_rows find_div
  filter_rows-displayed [] key styles n d = refl
  filter_rows-displayed (row ∷ rows) key styles n d = elim (Bool-cases (row.key == key)) [
    | inl same ↦
        subst (λ k. (filter_rows wide search (row ∷ rows) styles n).0 k ≡ displayed row (styles k))
          ((==_iff row.key key).0 same) (head-displayed row rows styles n d.0)
        ∙ ap (λ o. displayed_at o (styles key)) (sym (if_true (some row) (find_div key rows) same))
    | inr other ↦
        filter_rows-displayed rows key _ _ d.1
        ∙ ap (displayed_at (find_div key rows))
            (show_row-other row key styles (apart row.key key other))
        ∙ ap (λ o. displayed_at o (styles key))
            (sym (if_false (some row) (find_div key rows) other))
  ]

  -- The number of results whose names begin with the text.
  abbrev pub count_shown : List Div → ℕ
  count_shown [] = 0
  count_shown (row ∷ rows) =
      if is_result row && is_prefix search (strip_sr (to_lower wide row.id))
      then suc (count_shown rows)
      else count_shown rows

  filter_rows-count :
      (rows : List Div) (styles : Styles) (n : ℕ)
      → (filter_rows wide search rows styles n).1 ≡ n + count_shown rows
  unfolding filter_rows count_row is_match
  filter_rows-count [] styles n = omega arith
  filter_rows-count (row ∷ rows) styles n = ground (
    arith,
    filter_rows-count rows (show_row wide search row styles) (count_row wide search row n),
    take-is_prefix search (strip_sr (to_lower wide row.id)),
  )

-- With a text to search for, and no two divs being one node, the results page ends its search so: a
-- result is displayed exactly if its name, in lower case and without its number, begins with the
-- encoded text; the other divs and all other nodes keep their display. The number of the results
-- shown is kept, the notice of no matches is displayed exactly if it is 0, the notice of the search
-- is hidden, and the answer is true.
pub search_results_lem :
    (wide : ℕ → ℕ) (search : Str) (page : ResultsPage) (key : ℕ)
    → AreDistinct page.divs
    → let text = query wide page.location_search search in
      let (page', answer) = search_results wide search page in
      (page'.styles key ≡ displayed_at wide text (find_div key page.divs) (page.styles key))
      × (page'.last_match_count ≡ count_shown wide text page.divs)
      × (is_block page'.no_matches ≡ (page'.last_match_count == 0))
      × (page'.searching ≡ hidden)
      × (answer ≡ true)
unfolding search_results
search_results_lem wide search page key d =
    let text = query wide page.location_search search in
    (
      filter_rows-displayed wide text page.divs key page.styles 0 d,
      filter_rows-count wide text page.divs page.styles 0 ∙ omega arith,
      ground arith,
      refl,
      refl,
    )

-- The panel hands a value over in the URL that it gives the frame: the results page, called without
-- a text, searches for that value, if its units are UTF-16 code units and it is not empty.
pub query_handover :
    (wide : ℕ → ℕ) (c : ℕ) (value : Str)
    → All (λ d. d < 65536) (c ∷ value)
    → query wide (codes "?" ++ escape (c ∷ value)) [] ≡ query wide [] (c ∷ value)
unfolding query ◌==s◌
query_handover wide c value u =
    ap (λ s. convert_to_id (to_lower wide (strip_trailing (strip_leading s))))
      (unescape-escape (c ∷ value) u)
