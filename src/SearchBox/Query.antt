-- ===== src/SearchBox/Query.antt =====
-- docs/search/search.js, `SearchBox`: which results page `Search` opens.
use mathlib.Core.Option
use mathlib.Core.List.{append_cancel_left, append_cancel_right}
use tiny_swarm.Prelude.{
  ℕ, suc, ◌+◌, ◌≤◌, ◌<◌, ◌≡◌, refl, sym, ap, ap₂, ◌∙◌, true, false, [], ◌∷◌, Option, none, some,
  arith, ◌==◌, if◌then◌else◌, get_elem?,
}
use tiny_swarm.Text.{Str, codes, is_prefix, strip_leading, lower_unit}
use tiny_swarm.Text.Digits.{to_string, value-to_string, value_from}
use tiny_swarm.Page.{is_block}
use tiny_swarm.SearchBox.State.{Config, SearchBox, done, thrown}
use tiny_swarm.SearchBox.Search.{
  exceeds_one, index_char, index_of_from, index_of, section_name, results_page,
  results_page_with_search, open_results, placed_popup, show_results, search_,
}

exceeds_one-ascii : (c : ℕ) (s : Str) → 128 ≤ c → exceeds_one (c ∷ s) ≡ false
unfolding exceeds_one
exceeds_one-ascii c s h = ground arith

lower_unit-ascii : (wide : ℕ → ℕ) (c : ℕ) → c < 128 → lower_unit wide c < 128
unfolding lower_unit
lower_unit-ascii wide c h = ground arith

-- The text that `Search` looks up is the lower case of the first code unit of the value: the test
-- for a surrogate pair never passes, whatever the value is.
pub index_char-unit :
    (cfg : Config) (c : ℕ) (value : Str)
    → index_char cfg (c ∷ value) ≡ lower_unit cfg.wide_lower c ∷ []
unfolding index_char
index_char-unit cfg c value =
    ground (arith, exceeds_one-ascii c value, lower_unit-ascii cfg.wide_lower c)

-- The first position of a unit in a text.
pub position : ℕ → Str → Option ℕ
position c [] = none
position c (d ∷ text) = if d == c then some 0 else Option.map suc (position c text)

abbrev shift : ℕ → Option ℕ → Option ℕ
shift i none = none
shift i (some k) = some (i + k)

index_of_from-position :
    (i c : ℕ) (text : Str) → index_of_from i (c ∷ []) text ≡ shift i (position c text)
unfolding index_of_from is_prefix position
index_of_from-position i c [] = refl
index_of_from-position i c (d ∷ text) = ground (arith, index_of_from-position (i + 1) c text)

index_of-position : (c : ℕ) (text : Str) → index_of text (c ∷ []) ≡ position c text
unfolding index_of
index_of-position c text = ground (arith, index_of_from-position 0 c text)

open_results-block :
    (cfg : Config) (s : SearchBox) → is_block (open_results cfg s).results_window.display ≡ true
unfolding open_results placed_popup
open_results-block cfg s = ground arith

open_results-key_timeout :
    (cfg : Config) (s : SearchBox)
    → ((open_results cfg s).key_timeout ≡ s.key_timeout)
      × ((open_results cfg s).location ≡ s.location)
unfolding open_results
open_results-key_timeout cfg s = ground arith

-- The state behind a search for `value` that found its page.
abbrev shown : Config → SearchBox → Str → Option ℕ → SearchBox
shown cfg s value idx =
    record (open_results cfg
      (record s { location = results_page_with_search cfg s.search_index idx value })) {
        last_search_value = value;
        last_results_page = results_page cfg s.search_index idx;
      }

show_results_lem :
    (cfg : Config) (s : SearchBox) (c : ℕ) (value content : Str)
    → show_results cfg (c ∷ value) (some content) s
      ≡ done (shown cfg s (c ∷ value) (position (lower_unit cfg.wide_lower c) content))
unfolding show_results
show_results_lem cfg s c value content =
    ap (λ i. done (shown cfg s (c ∷ value) i))
      (ap (index_of content) (index_char-unit cfg c value) ∙ index_of-position _ content)

-- If the chosen section has content and the value is not blank, `Search` ends without an error. It
-- sends the results frame to the page of the first place in that content at which the value's first
-- unit stands in lower case, with the value as query, or to the page of no matches if it is not
-- there; it keeps the value and the page, opens the popup and forgets the key timer.
pub search_lem :
    (cfg : Config) (s : SearchBox) (c : ℕ) (value content : Str)
    → strip_leading s.field_value ≡ c ∷ value
    → get_elem? cfg.sections_with_content s.search_index ≡ some content
    → let idx = position (lower_unit cfg.wide_lower c) content in
      (s' : SearchBox) × (search_ cfg s ≡ done s')
      × (s'.location ≡ results_page_with_search cfg s.search_index idx (c ∷ value))
      × (s'.last_search_value ≡ c ∷ value)
      × (s'.last_results_page ≡ results_page cfg s.search_index idx)
      × (is_block s'.results_window.display ≡ true)
      × (s'.key_timeout ≡ 0)
unfolding search_
search_lem cfg s c value content e h =
    let s₀ = record s { key_timeout = 0 } in
    let idx = position (lower_unit cfg.wide_lower c) content in
    let s₁ = record s₀ { location = results_page_with_search cfg s.search_index idx (c ∷ value) } in
    (
      shown cfg s₀ (c ∷ value) idx,
      ap₂ (λ v o. show_results cfg v o s₀) e h ∙ show_results_lem cfg s₀ c value content,
      (open_results-key_timeout cfg s₁).1,
      refl,
      refl,
      open_results-block cfg s₁,
      (open_results-key_timeout cfg s₁).0,
    )

-- Without content at the chosen section `Search` throws, and has done nothing but forget the timer.
pub search-throws :
    (cfg : Config) (s : SearchBox)
    → get_elem? cfg.sections_with_content s.search_index ≡ none
    → search_ cfg s ≡ thrown (record s { key_timeout = 0 })
unfolding search_ show_results
search-throws cfg s h = rw (h, search_, show_results)

-- Two places of a section have different results pages.
pub results_page_injective :
    (cfg : Config) (section i j : ℕ)
    → results_page cfg section (some i) ≡ results_page cfg section (some j)
    → i ≡ j
unfolding results_page
results_page_injective cfg section i j e =
    let no_path = append_cancel_left cfg.results_path _ _ e in
    let no_slash = append_cancel_left (codes "/") _ _ no_path in
    let no_name = append_cancel_left (section_name cfg.section_names section) _ _ no_slash in
    let no_mark = append_cancel_left (codes "_") _ _ no_name in
    let digits : to_string 16 i ≡ to_string 16 j = append_cancel_right _ _ _ no_mark in
    sym (value-to_string 16 i (omega arith))
    ∙ ap (value_from 16 0) digits
    ∙ value-to_string 16 j (omega arith)
